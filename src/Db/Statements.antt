-- ===== src/Db/Statements.antt =====
-- What an UPDATE on `jobs` does when ids are unique: it rewrites the one row that it is aimed at.
use kaiion.Prelude.{
  String, Bool, true, false, ◌≡◌, refl, ◌≢◌, sym, ◌∙◌, subst, inl, inr, none, some, List, [], ◌∷◌,
  All, arith, str_eq, str_eq_iff, if◌then◌else◌, Bool-cases,
}
use kaiion.Json.{Codec}
use kaiion.Db.Table.{Row, check, update, find_id}

abbrev pub Absent : String → List Row → Type 0
Absent id = All (λ r. r.raw.id ≢ id)

-- PRIMARY KEY (id)
abbrev pub Unique : List Row → Type 0
Unique [] = Unit
Unique (r ∷ rs) = Absent r.raw.id rs × Unique rs

-- The row with this id, exchanged.
pub replace : String → Row → List Row → List Row
replace id new [] = []
replace id new (r ∷ rs) =
    if str_eq r.raw.id id then new ∷ replace id new rs else r ∷ replace id new rs

-- A WHERE clause that names the id.
abbrev pub Names : String → (Row → Bool) → Type 0
Names id test = (r : Row) → test r ≡ true → r.raw.id ≡ id

pub find_id-Absent : (id : String) (rs : List Row) → Absent id rs → find_id id rs ≡ none
unfolding find_id
find_id-Absent id [] h = refl
find_id-Absent id (r ∷ rs) h = ground (arith, str_eq_iff r.raw.id id, h.0, find_id-Absent id rs h.1)

pub Absent-find_id : (id : String) (rs : List Row) → find_id id rs ≡ none → Absent id rs
unfolding find_id
Absent-find_id id [] h = tt
Absent-find_id id (r ∷ rs) h = ground (arith, str_eq_iff r.raw.id id, Absent-find_id id rs)

pub find_id-id : (id : String) (rs : List Row) (r : Row) → find_id id rs ≡ some r → r.raw.id ≡ id
unfolding find_id
find_id-id id [] r h = cc
find_id-id id (x ∷ rs) r h = ground (arith, str_eq_iff x.raw.id id, find_id-id id rs r)

replace-Absent : (id : String) (new : Row) (rs : List Row) → Absent id rs → replace id new rs ≡ rs
unfolding replace
replace-Absent id new [] h = refl
replace-Absent id new (r ∷ rs) h =
    ground (arith, str_eq_iff r.raw.id id, h.0, replace-Absent id new rs h.1)

module _ (c : Codec) (id : String) (test : Row → Bool) (set : Row → Row)
    (names : Names id test) where
  update-Absent : (rs : List Row) → Absent id rs → update c test set rs ≡ some (rs, none)
  unfolding update
  update-Absent [] h = refl
  update-Absent (r ∷ rs) h = ground (arith, update-Absent rs h.1, names r, h.0)

  pub update-missing :
      (rs : List Row) → find_id id rs ≡ none → update c test set rs ≡ some (rs, none)
  update-missing rs h = update-Absent rs (Absent-find_id id rs h)

  pub update-miss :
      (rs : List Row) (r : Row)
      → Unique rs
      → find_id id rs ≡ some r
      → test r ≡ false
      → update c test set rs ≡ some (rs, none)
  unfolding update find_id
  update-miss [] r u f t = refl
  update-miss (x ∷ rs) r u f t = elim (Bool-cases (str_eq x.raw.id id)) [
    | inl here ↦
        let same = (str_eq_iff x.raw.id id).0 here in
        ground (arith, update-Absent rs (subst (λ i. Absent i rs) same u.0))
    | inr there ↦ ground (arith, str_eq_iff x.raw.id id, names x, update-miss rs r u.1)
  ]

  pub update-hit :
      (rs : List Row) (r : Row)
      → Unique rs
      → find_id id rs ≡ some r
      → test r ≡ true
      → check c (set r).raw ≡ true
      → update c test set rs ≡ some (replace id (set r) rs, some (set r))
  unfolding update find_id replace
  update-hit [] r u f t k = cc
  update-hit (x ∷ rs) r u f t k = elim (Bool-cases (str_eq x.raw.id id)) [
    | inl here ↦
        let alone = subst (λ i. Absent i rs) ((str_eq_iff x.raw.id id).0 here) u.0 in
        ground (arith, update-Absent rs alone, replace-Absent id (set r) rs alone)
    | inr there ↦ ground (arith, str_eq_iff x.raw.id id, names x, update-hit rs r u.1)
  ]

  pub update-violates :
      (rs : List Row) (r : Row)
      → find_id id rs ≡ some r
      → test r ≡ true
      → check c (set r).raw ≡ false
      → update c test set rs ≡ none
  unfolding update find_id
  update-violates [] r f t k = cc
  update-violates (x ∷ rs) r f t k = elim (Bool-cases (str_eq x.raw.id id)) [
    | inl here ↦ ground arith
    | inr there ↦ ground (arith, update-violates rs r)
  ]

module _ (id : String) (new : Row) (keeps : new.raw.id ≡ id) where
  pub find_id-replace :
      (rs : List Row) (r : Row) → find_id id rs ≡ some r → find_id id (replace id new rs) ≡ some new
  unfolding find_id replace
  find_id-replace [] r f = cc
  find_id-replace (x ∷ rs) r f =
      ground (arith, str_eq_iff x.raw.id id, str_eq_iff new.raw.id id, find_id-replace rs r)

  pub find_id-replace_ne :
      (rs : List Row) (j : String) → j ≢ id → find_id j (replace id new rs) ≡ find_id j rs
  unfolding find_id replace
  find_id-replace_ne [] j n = refl
  find_id-replace_ne (x ∷ rs) j n = ground (
    arith,
    str_eq_iff x.raw.id id,
    str_eq_iff x.raw.id j,
    str_eq_iff new.raw.id j,
    find_id-replace_ne rs j,
  )

  Absent-replace : (i : String) (rs : List Row) → Absent i rs → Absent i (replace id new rs)
  unfolding replace
  Absent-replace i [] h = tt
  Absent-replace i (x ∷ rs) h = ground (arith, str_eq_iff x.raw.id id, Absent-replace i rs h.1, h.0)

  pub replace-Unique : (rs : List Row) → Unique rs → Unique (replace id new rs)
  unfolding replace
  replace-Unique [] u = tt
  replace-Unique (x ∷ rs) u = elim (Bool-cases (str_eq x.raw.id id)) [
    | inl here ↦ rw here (
      subst (λ i. Absent i (replace id new rs)) ((str_eq_iff x.raw.id id).0 here ∙ sym keeps)
          (Absent-replace x.raw.id rs u.0),
      replace-Unique rs u.1,
    )
    | inr there ↦ rw there (Absent-replace x.raw.id rs u.0, replace-Unique rs u.1)
  ]
