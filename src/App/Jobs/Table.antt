-- ===== src/App/Jobs/Table.antt =====
-- The dict of the jobs: what its operations do to the number of records and of open ones, and that
-- trimming keeps the newest finished jobs.
use fixrepro.Base.{
  ℕ, zero, suc, ◌+◌, ◌-◌, ◌≡◌, refl, ap, ◌∙◌, inl, inr, String, Bool-cases, none, some, string_eq,
  List, [], ◌∷◌, length, arith, ltb, if◌then◌else◌, ==_refl, option_eq,
}
use fixrepro.App.Jobs.{
  JobRecord, is_finished, get_record, set_record, pop_record, finished_ids, trim, max_finished_jobs,
}

abbrev pub drop {ℓ} : {A : Type ℓ} → ℕ → List A → List A
drop zero xs = xs
drop (suc n) [] = []
drop (suc n) (x ∷ xs) = drop n xs

abbrev pub Table : Type 0 → Type 0
Table R = List (String × JobRecord R)

module _ {R : Type 0} where
  -- 1 for a job that has not finished.
  abbrev pub open_weight : JobRecord R → ℕ
  open_weight r = if is_finished r then 0 else 1

  abbrev pub open_count : Table R → ℕ
  open_count [] = 0
  open_count ((k, r) ∷ rest) = open_weight r + open_count rest

  abbrev pub keys : Table R → List String
  keys [] = []
  keys ((k, r) ∷ rest) = k ∷ keys rest

  pub get-set :
      (key : String) (new : JobRecord R) (jobs : Table R)
      → get_record key (set_record key new jobs) ≡ some new
  unfolding get_record set_record
  get-set key new [] = ground (arith, ==_refl key)
  get-set key new ((k, r) ∷ rest) = ground (arith, get-set key new rest, ==_refl key)

  pub set_new :
      (key : String) (new : JobRecord R) (jobs : Table R)
      → get_record key jobs ≡ none
      → (open_count (set_record key new jobs) ≡ open_count jobs + open_weight new)
        × (length (set_record key new jobs) ≡ suc (length jobs))
  unfolding get_record set_record
  set_new key new [] h = ground arith
  set_new key new ((k, r) ∷ rest) h = ground (arith, set_new key new rest)

  pub set_old :
      (key : String) (new old : JobRecord R) (jobs : Table R)
      → get_record key jobs ≡ some old
      → (open_count (set_record key new jobs) + open_weight old ≡ open_count jobs + open_weight new)
        × (length (set_record key new jobs) ≡ length jobs)
  unfolding get_record set_record
  set_old key new old [] h = ground arith
  set_old key new old ((k, r) ∷ rest) h = ground (arith, set_old key new old rest)

  pub pop_old :
      (key : String) (old : JobRecord R) (jobs : Table R)
      → get_record key jobs ≡ some old
      → (open_count (pop_record key jobs) + open_weight old ≡ open_count jobs)
        × (suc (length (pop_record key jobs)) ≡ length jobs)
  unfolding get_record pop_record
  pop_old key old [] h = ground arith
  pop_old key old ((k, r) ∷ rest) h = ground (arith, pop_old key old rest)

  all_finished : (jobs : Table R) → open_count jobs ≡ 0 → finished_ids none jobs ≡ keys jobs
  unfolding finished_ids
  all_finished [] h = refl
  all_finished ((k, r) ∷ rest) h = ground (arith, all_finished rest)

  keys-length : (jobs : Table R) → length (keys jobs) ≡ length jobs
  keys-length [] = refl
  keys-length ((k, r) ∷ rest) = omega (arith, keys-length rest)

  trim-keys : (jobs : Table R) → trim (keys jobs) jobs ≡ drop (length jobs - max_finished_jobs) jobs
  unfolding trim pop_record
  trim-keys [] = refl
  trim-keys ((k, r) ∷ rest) = elim (Bool-cases (ltb max_finished_jobs (length (k ∷ keys rest)))) [
    | inl more ↦
        let shift : suc (length rest) - max_finished_jobs ≡ suc (length rest - max_finished_jobs) =
          ground (arith, keys-length rest) in
        rw (more, ==_refl k, shift) (trim-keys rest)
    | inr few ↦
        let nothing : suc (length rest) - max_finished_jobs ≡ 0 =
          ground (arith, keys-length rest) in
        rw (few, nothing) refl
  ]

  -- When no job is open, trimming the history keeps exactly its last ten jobs.
  pub trim_newest :
      (jobs : Table R)
      → open_count jobs ≡ 0
      → trim (finished_ids none jobs) jobs ≡ drop (length jobs - max_finished_jobs) jobs
  trim_newest jobs h = ap (λ ids. trim ids jobs) (all_finished jobs h) ∙ trim-keys jobs

  pub drop-open : (n : ℕ) (jobs : Table R) → open_count jobs ≡ 0 → open_count (drop n jobs) ≡ 0
  drop-open zero jobs h = h
  drop-open (suc n) [] h = h
  drop-open (suc n) ((k, r) ∷ rest) h = drop-open n rest (omega (arith, h))

pub length-drop {ℓ} : {A : Type ℓ} (n : ℕ) (xs : List A) → length (drop n xs) ≡ length xs - n
length-drop zero xs = omega arith
length-drop (suc n) [] = omega arith
length-drop (suc n) (x ∷ xs) = omega (arith, length-drop n xs)
