-- ===== src/Openai/Paging.antt =====
-- src/openai.rs: `find_batch`, which looks for a job's Batch on page after page. What the provider
-- answers is a parameter.
pub mod Listing
use kaiion.Prelude.{
  ℕ, zero, suc, ◌+◌, String, Bool, true, false, not, ◌||◌, Option, none, some, List, [], ◌∷◌,
  Result, ok, err, ◌>>=◌, str_eq, is_some_and, and_then, filter_option, is_empty, if◌then◌else◌,
}
use kaiion.Json.{get_field, as_object, as_str}
use kaiion.Openai.{BatchObject, ProviderError}

pub record BatchList : Type 0 where
  pub batches : List BatchObject
  pub has_more : Bool
  pub last_id : Option String

-- The Batch's metadata names the job.
unfoldable pub belongs_to : (job_id : String) → BatchObject → Bool
belongs_to job_id b =
    is_some_and
      (and_then (and_then (and_then b.metadata as_object) (get_field "kaiion_job_id")) as_str)
      (λ id. str_eq id job_id)

-- `Iterator::find`
unfoldable pub find_on_page : (job_id : String) → List BatchObject → Option BatchObject
unfolding belongs_to
find_on_page job_id [] = none
find_on_page job_id (b ∷ bs) = if belongs_to job_id b then some b else find_on_page job_id bs

-- What one round of the loop decides: it returns, or asks for the page after this id.
pub data Look : Type 0 where
  found : BatchObject → Look
  absent : Look
  next : (after : String) → Look

abbrev repeats : (after : Option String) → (last_id : String) → Bool
repeats after last_id = is_some_and after (λ id. str_eq id last_id)

unfoldable pub look_further :
    (after : Option String) → (has_more : Bool) → (last_id : Option String) → Look
look_further after has_more none = absent
look_further after has_more (some last_id) =
    if not has_more || repeats after last_id then absent else next last_id

unfoldable pub look_on : (job_id : String) → (after : Option String) → BatchList → Look
look_on job_id after page = elim (find_on_page job_id page.batches) [
  | some b ↦ found b
  | none ↦ look_further after page.has_more (filter_option (λ id. not (is_empty id)) page.last_id)
]

module _ (page_after : Option String → Result ProviderError BatchList) (job_id : String) where
  -- The loop, on fuel; `none` when it runs out.
  unfoldable pub find_from :
      (fuel : ℕ) → (after : Option String) → Option (Result ProviderError (Option BatchObject))
  find_from zero after = none
  find_from (suc fuel) after = elim (page_after after) [
    | err e ↦ some (err e)
    | ok page ↦ elim (look_on job_id after page) [
      | found b ↦ some (ok (some b))
      | absent ↦ some (ok none)
      | next last_id ↦ find_from fuel (some last_id)
    ]
  ]

  -- `find_batch`
  unfoldable pub find_batch : (fuel : ℕ) → Option (Result ProviderError (Option BatchObject))
  find_batch fuel = find_from fuel none
