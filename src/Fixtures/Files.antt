-- ===== src/Fixtures/Files.antt =====
-- What is in the files after `write_to` (fixtures.rs).
use graph_privacy_showcase_d.Common.{
  Option, none, some, List, [], ◌∷◌, ◌++◌, map, ◌≡◌, refl, sym, ap, ◌∙◌, All, Error, Result, ok,
  err, cannot_create, cannot_write,
}
use graph_privacy_showcase_d.Common.Text.{Text, codes}
use graph_privacy_showcase_d.Common.Effects.{Run, run-eq-ok, lift, lift-eq-ok}
use graph_privacy_showcase_d.Records.{DisclosedRecord}
use graph_privacy_showcase_d.Fixtures.{GeneratedFixtures}
use graph_privacy_showcase_d.Fixtures.Write.{
  Store, to_pretty_json, replace_error, with_context, records_path, manifest_path, lifecycle_path,
  write_records, write_to,
}

module _ {World : Type 0} {A : Type 0} where
  replace_error-eq-ok :
      (e : Error) (r : Result A) (u v : World) (a : A)
      → ◌≡◌ {A = Result A × World} (replace_error e r, u) (ok a, v)
      → ◌≡◌ {A = Result A × World} (r, u) (ok a, v)
  replace_error-eq-ok e (ok b) u v a h = h
  replace_error-eq-ok e (err x) u v a h = absurd (cc)

  with_context-eq-ok :
      (e : Error) (m : Run World A) (w v : World) (a : A)
      → with_context e m w ≡ (ok a, v)
      → m w ≡ (ok a, v)
  with_context-eq-ok e m w v a h = replace_error-eq-ok e (m w).0 (m w).1 v a h

to_pretty_json-eq-ok :
    (printed : Option Text) (s : Text)
    → to_pretty_json printed ≡ ok s
    → (t : Text) × (printed ≡ some t) × (s ≡ t ++ codes "\n")
unfolding to_pretty_json
to_pretty_json-eq-ok none s e = absurd (cc)
to_pretty_json-eq-ok (some t) s e = (t, refl, cc)

-- What the file system is relied on for: a file that was written holds the text, and a write leaves the
-- files at other paths as they are.
pub record StoreLaws (S : Store) : Type 1 where
  pub read : S.World → Text → Option Text
  -- The two paths name different files.
  pub IsOther : Text → Text → Type 0
  pub write_same : (p s : Text) (w v : S.World) → S.write p s w ≡ (ok tt, v) → read v p ≡ some s
  pub write_other :
      (p q s : Text) (w v : S.World)
      → IsOther p q
      → S.write q s w ≡ (ok tt, v)
      → read v p ≡ read w p

module _ (S : Store) (K : StoreLaws S) where
  open S use {World, write, join, record_pretty, manifest_pretty, lifecycle_pretty}
  open K use {read, IsOther}

  abbrev pub path_of : Text → Text × DisclosedRecord → Text
  path_of dir (file, r) = join dir file

  abbrev pub ArePairwiseOther : List Text → Type 0
  ArePairwiseOther [] = Unit
  ArePairwiseOther (p ∷ ps) = All (λ q. IsOther p q) ps × ArePairwiseOther ps

  -- The file holds the printed record.
  abbrev pub IsWritten : Text → World → Text × DisclosedRecord → Type 0
  IsWritten dir v (file, r) =
      (s : Text) × (record_pretty r ≡ some s) × (read v (join dir file) ≡ some (s ++ codes "\n"))

  -- One round of the loop.
  write_record-eq-ok :
      (dir file : Text) (r : DisclosedRecord) (rest : List (Text × DisclosedRecord)) (w v : World)
      → write_records S dir ((file, r) ∷ rest) w ≡ (ok tt, v)
      → (t : Text) × (u : World) × (record_pretty r ≡ some t)
        × (write (join dir file) (t ++ codes "\n") w ≡ (ok tt, u))
        × (write_records S dir rest u ≡ (ok tt, v))
  unfolding write_records
  write_record-eq-ok dir file r rest w v e =
      let (s, w1, e1, k1) = run-eq-ok (lift (to_pretty_json (record_pretty r))) _ w v tt e in
      let (_, u, e2, k2) =
        run-eq-ok (with_context (cannot_write (join dir file)) (write (join dir file) s)) _ w1 v tt
          k1 in
      let (t, printed, made) = to_pretty_json-eq-ok (record_pretty r) s (lift-eq-ok _ w w1 s e1) in
      let written = with_context-eq-ok _ (write (join dir file) s) w1 u tt e2 in
      let same : w1 ≡ w = sym (ap (λ p. p.1) e1) in
      (t, u, printed, rw (sym made, sym same) written, k2)

  write_records_keep :
      (p dir : Text) (rs : List (Text × DisclosedRecord)) (w v : World)
      → All (λ q. IsOther p q) (map (path_of dir) rs)
      → write_records S dir rs w ≡ (ok tt, v)
      → read v p ≡ read w p
  write_records_keep p dir [] w v h e = unfold write_records in ap (λ r. read r.1 p) (sym e)
  write_records_keep p dir ((file, r) ∷ rest) w v (q, h) e =
      let (t, u, _, written, later) = write_record-eq-ok dir file r rest w v e in
      write_records_keep p dir rest u v h later ∙ K.write_other p _ _ w u q written

  write_records-IsWritten :
      (dir : Text) (rs : List (Text × DisclosedRecord)) (w v : World)
      → ArePairwiseOther (map (path_of dir) rs)
      → write_records S dir rs w ≡ (ok tt, v)
      → All (IsWritten dir v) rs
  write_records-IsWritten dir [] w v h e = tt
  write_records-IsWritten dir ((file, r) ∷ rest) w v (q, h) e =
      let (t, u, printed, written, later) = write_record-eq-ok dir file r rest w v e in
      (
        (
          t,
          printed,
          write_records_keep (join dir file) dir rest u v q later
              ∙ K.write_same (join dir file) _ w u written,
        ),
        write_records-IsWritten dir rest u v h later,
      )

  -- The paths that `write_to` writes to, in its order.
  abbrev pub written_paths : Text → GeneratedFixtures → List Text
  written_paths build_dir g =
      map (path_of (records_path S build_dir)) g.records
      ++ manifest_path S build_dir ∷ lifecycle_path S build_dir ∷ []

  split_paths :
      (ps : List Text) (a b : Text)
      → ArePairwiseOther (ps ++ a ∷ b ∷ [])
      → ArePairwiseOther ps × All (λ p. IsOther p a × IsOther p b) ps × IsOther a b
  split_paths [] a b ((h, _), _) = (tt, tt, h)
  split_paths (p ∷ ps) a b (q, h) =
      let (pairwise, outside, last) = split_paths ps a b h in
      let (mine, theirs) = split_all ps q in ((mine, pairwise), (theirs, outside), last)
    where
      split_all :
          (ps : List Text)
          → All (λ q. IsOther p q) (ps ++ a ∷ b ∷ [])
          → All (λ q. IsOther p q) ps × (IsOther p a × IsOther p b)
      split_all [] (h, (k, _)) = (tt, (h, k))
      split_all (q ∷ ps) (h, k) = let (l, r) = split_all ps k in ((h, l), r)

  kept :
      (dir : Text) (rs : List (Text × DisclosedRecord)) (a b : Text) (w v : World)
      → All (λ p. IsOther p a × IsOther p b) (map (path_of dir) rs)
      → ((p : Text) → IsOther p a × IsOther p b → read v p ≡ read w p)
      → All (IsWritten dir w) rs
      → All (IsWritten dir v) rs
  kept dir [] a b w v h k all = tt
  kept dir ((file, r) ∷ rest) a b w v (q, h) k ((t, printed, held), all) =
      ((t, printed, k (join dir file) q ∙ held), kept dir rest a b w v h k all)

  -- What is in the files after `write_to`.
  abbrev pub AreFiled : Text → GeneratedFixtures → World → Type 0
  AreFiled build_dir g v =
      All (IsWritten (records_path S build_dir) v) g.records
      × ((s : Text) × (manifest_pretty g.manifest ≡ some s)
          × (read v (manifest_path S build_dir) ≡ some (s ++ codes "\n")))
      × ((s : Text) × (lifecycle_pretty g.lifecycle ≡ some s)
          × (read v (lifecycle_path S build_dir) ≡ some (s ++ codes "\n")))

  pub write_to-AreFiled :
      (build_dir : Text) (g : GeneratedFixtures) (w v : World)
      → ArePairwiseOther (written_paths build_dir g)
      → write_to S build_dir g w ≡ (ok tt, v)
      → AreFiled build_dir g v
  unfolding write_to
  write_to-AreFiled build_dir g w v h e =
      let dir = records_path S build_dir in
      let (pairwise, outside, last) =
        split_paths (map (path_of dir) g.records) (manifest_path S build_dir)
          (lifecycle_path S build_dir) h in
      let (_, w1, e1, k1) =
        run-eq-ok (with_context (cannot_create dir) (S.create_dir_all dir)) _ w v tt e in
      let (_, w2, e2, k2) = run-eq-ok (write_records S dir g.records) _ w1 v tt k1 in
      let (ms, w3, e3, k3) =
        run-eq-ok (lift (to_pretty_json (manifest_pretty g.manifest))) _ w2 v tt k2 in
      let (_, w4, e4, k4) = run-eq-ok (write (manifest_path S build_dir) ms) _ w3 v tt k3 in
      let (ls, w5, e5, k5) =
        run-eq-ok (lift (to_pretty_json (lifecycle_pretty g.lifecycle))) _ w4 v tt k4 in
      let (mt, m_printed, m_made) = to_pretty_json-eq-ok _ ms (lift-eq-ok _ w2 w3 ms e3) in
      let (lt, l_printed, l_made) = to_pretty_json-eq-ok _ ls (lift-eq-ok _ w4 w5 ls e5) in
      let same3 : w3 ≡ w2 = sym (ap (λ p. p.1) e3) in
      let same5 : w5 ≡ w4 = sym (ap (λ p. p.1) e5) in
      (
        kept dir g.records _ _ w2 v outside
            (λ p (not_m, not_l).
              K.write_other p _ ls w5 v not_l k5
              ∙ ap (λ x. read x p) same5
              ∙ K.write_other p _ ms w3 w4 not_m e4
              ∙ ap (λ x. read x p) same3)
            (write_records-IsWritten dir g.records w1 w2 pairwise e2),
        (
          mt,
          m_printed,
          K.write_other (manifest_path S build_dir) _ ls w5 v last k5
              ∙ ap (λ x. read x (manifest_path S build_dir)) same5
              ∙ K.write_same _ ms w3 w4 e4
              ∙ ap some m_made,
        ),
        (lt, l_printed, K.write_same _ ls w5 v k5 ∙ ap some l_made),
      )
