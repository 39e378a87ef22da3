-- ===== src/Openai/Paging/Listing.antt =====
-- src/openai.rs: `find_batch` on a listing that spans pages.
use kaiion.Prelude.{
  ℕ, zero, suc, ◌≤◌, ◌≡◌, refl, sym, ◌∙◌, ap, String, true, false, Option, none, some, List, [],
  ◌∷◌, ◌++◌, Result, ok, inl, inr, Option-cases, is_empty, arith, or_else,
}
use kaiion.Openai.{BatchObject, ProviderError}
use kaiion.Openai.Paging.{
  BatchList, find_on_page, found, absent, next, repeats, look_further, look_on, find_from,
  find_batch,
}

module _ (page_after : Option String → Result ProviderError BatchList) where
  -- The provider lists these batches after the given id: on one page, or on a page that names a
  -- further id and says that there is more. The number counts the pages.
  pub data Listing : ℕ → Option String → List BatchObject → Type 0 where
    last_page :
        {after : Option String} (page : BatchList)
        → page_after after ≡ ok page
        → page.has_more ≡ false
        → Listing 1 after page.batches
    more_pages :
        {n : ℕ} {after : Option String} {rest : List BatchObject} (page : BatchList) (id : String)
        → page_after after ≡ ok page
        → page.has_more ≡ true
        → page.last_id ≡ some id
        → is_empty id ≡ false
        → repeats after id ≡ false
        → Listing n (some id) rest
        → Listing (suc n) after (page.batches ++ rest)

find_on_page-append :
    (job_id : String) (xs ys : List BatchObject)
    → find_on_page job_id (xs ++ ys) ≡ or_else (find_on_page job_id xs) (find_on_page job_id ys)
unfolding find_on_page
find_on_page-append job_id [] ys = refl
find_on_page-append job_id (x ∷ xs) ys = ground (arith, find_on_page-append job_id xs ys)

look_further-last : (after o : Option String) → look_further after false o ≡ absent
unfolding look_further
look_further-last after none = refl
look_further-last after (some id) = refl

module _ (page_after : Option String → Result ProviderError BatchList) (job_id : String) where
  on_page :
      (fuel : ℕ) (after : Option String) (page : BatchList) (b : BatchObject)
      → page_after after ≡ ok page
      → find_on_page job_id page.batches ≡ some b
      → find_from page_after job_id (suc fuel) after ≡ some (ok (some b))
  unfolding look_on find_from
  on_page fuel after page b given here =
      let looked : look_on job_id after page ≡ found b = rw (here, look_on) refl in
      rw (given, find_from) (rw looked refl)

  on_last :
      (fuel : ℕ) (after : Option String) (page : BatchList)
      → page_after after ≡ ok page
      → page.has_more ≡ false
      → find_on_page job_id page.batches ≡ none
      → find_from page_after job_id (suc fuel) after ≡ some (ok none)
  unfolding look_on find_from
  on_last fuel after page given last here =
      let looked : look_on job_id after page ≡ absent =
        rw (here, look_on) (rw last (look_further-last after _)) in
      rw (given, find_from) (rw looked refl)

  on_next :
      (fuel : ℕ) (after : Option String) (page : BatchList) (id : String)
      → page_after after ≡ ok page
      → page.has_more ≡ true
      → page.last_id ≡ some id
      → is_empty id ≡ false
      → repeats after id ≡ false
      → find_on_page job_id page.batches ≡ none
      → find_from page_after job_id (suc fuel) after ≡ find_from page_after job_id fuel (some id)
  unfolding look_on find_from look_further
  on_next fuel after page id given more last filled fresh here =
      let looked : look_on job_id after page ≡ next id =
        rw (here, look_on) (rw (more, last) (rw filled (rw fresh refl))) in
      rw (given, find_from) (rw looked refl)

  find_from-Listing :
      (n fuel : ℕ) (after : Option String) (all : List BatchObject)
      → Listing page_after n after all
      → n ≤ fuel
      → find_from page_after job_id fuel after ≡ some (ok (find_on_page job_id all))
  find_from-Listing n zero after all (last_page page given last) h = ground (arith, h)
  find_from-Listing n zero after all (more_pages page id given more last filled fresh l) h =
      ground (arith, h)
  find_from-Listing n (suc fuel) after all (last_page page given last) h =
      elim (Option-cases (find_on_page job_id page.batches)) [
        | inl none_here ↦ on_last fuel after page given last none_here ∙ rw none_here refl
        | inr (b, here) ↦ on_page fuel after page b given here ∙ rw here refl
      ]
  find_from-Listing n (suc fuel) after all (more_pages page id given more last filled fresh l) h =
      elim (Option-cases (find_on_page job_id page.batches)) [
        | inl none_here ↦
            on_next fuel after page id given more last filled fresh none_here
            ∙ find_from-Listing _ fuel (some id) _ l (omega (arith, h))
            ∙ ap (λ o. some (ok o))
                (sym (find_on_page-append job_id page.batches _ ∙ rw none_here refl))
        | inr (b, here) ↦
            on_page fuel after page b given here
            ∙ ap (λ o. some (ok o)) (sym (find_on_page-append job_id page.batches _ ∙ rw here refl))
      ]

-- On a listing of n pages, n rounds of the loop are enough, and they give the first Batch of the
-- whole listing that belongs to the job, or nothing when none does.
pub find_batch-Listing :
    (page_after : Option String → Result ProviderError BatchList) (job_id : String) (n fuel : ℕ)
    (all : List BatchObject)
    → Listing page_after n none all
    → n ≤ fuel
    → find_batch page_after job_id fuel ≡ some (ok (find_on_page job_id all))
unfolding find_batch
find_batch-Listing page_after job_id n fuel all l h =
    find_from-Listing page_after job_id n fuel none all l h
