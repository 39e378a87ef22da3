-- ===== src/Db/Moves.antt =====
-- What `transition` of src/db.rs does at a job that is there: it conflicts, is refused by the
-- schema, or moves the job and touches no other.
use kaiion.Prelude.{
  String, Bool, true, false, ◌≡◌, refl, sym, ◌∙◌, ap, none, some, ok, err, arith, str_eq_iff,
}
use kaiion.Json.{Codec}
use kaiion.Domain.{JobState}
use kaiion.Db.Rows.{database, transition_conflict}
use kaiion.Db.Table.{Row, Database, Engine, check, find_id}
use kaiion.Db.Transitions.{after_update, transition, matches, matches_file}
use kaiion.Db.Statements.{
  Unique, Names, replace, update-miss, update-hit, update-violates, find_id-replace,
  find_id-replace_ne, replace-Unique,
}
use kaiion.Db.Decoding.{columns, Readable, check-columns, decode-columns}
use kaiion.Db.Machine.{moves, Moved, Implements}

module _ (e : Engine) (c : Codec) (id expected : String) (test : Row → Bool) (set : Row → Row)
    (names : Names id test) (db : Database) (r : Row) (healthy : e.failure ≡ none)
    (unique : Unique db.jobs) (found : find_id id db.jobs ≡ some r) where
  pub transition-conflicts :
      test r ≡ false
      → transition e c id expected test set db ≡ (err (transition_conflict id expected), db)
  unfolding transition
  transition-conflicts miss =
      rw healthy (rw (update-miss c id test set names db.jobs r unique found miss, after_update))

  pub transition-violates :
      test r ≡ true
      → check c (set r).raw ≡ false
      → transition e c id expected test set db ≡ (err (database e.constraint), db)
  unfolding transition
  transition-violates hit bad =
      rw healthy (rw (update-violates c id test set names db.jobs r found hit bad, after_update))

  module _ (s : JobState) (hit : test r ≡ true) (out : (set r).raw ≡ columns c id r.raw.model s)
      (readable : Readable c s) where
    transition-ok :
        transition e c id expected test set db
        ≡ (ok s, record db { jobs = replace id (set r) db.jobs })
    unfolding transition
    transition-ok =
        let good : check c (set r).raw ≡ true =
          rw out (check-columns c id r.raw.model s readable) in
        rw healthy (
          rw (update-hit c id test set names db.jobs r unique found hit good, after_update)
            (rw (out, decode-columns c id r.raw.model s readable)))

    replaced-Moved : Moved c db (record db { jobs = replace id (set r) db.jobs }) id s
    replaced-Moved =
        let keeps : (set r).raw.id ≡ id = ap (λ w. w.id) out in
        record {
          holds = record {
            row = set r;
            found = find_id-replace id (set r) keeps db.jobs r found;
            laid_out = out ∙ ap (λ m. columns c id m s) (sym (ap (λ w. w.model) out));
          };
          others = find_id-replace_ne id (set r) keeps db.jobs;
          unique = replace-Unique id (set r) keeps db.jobs unique;
          requests = refl;
        }

    pub transition-moves :
        Implements e c id expected db (transition e c id expected test set db) (moves s)
    transition-moves = rw transition-ok (refl, replaced-Moved)

pub matches-Names : (id status : String) → Names id (matches id status)
matches-Names id status r h = ground (arith, str_eq_iff r.raw.id id)

pub matches_file-Names : (id file : String) → Names id (matches_file id file)
matches_file-Names id file r h = ground (arith, str_eq_iff r.raw.id id)
