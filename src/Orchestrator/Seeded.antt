-- ===== src/Orchestrator/Seeded.antt =====
-- The cold start: a repository is turned on only with its whole backlog on record.
use claude_code_reviewer.Prelude.{
  ℕ, String, Bool, true, false, not, ◌==◌, string_eq, eq_iff, Option, none, some, List, [], ◌∷◌,
  ◌++◌, find, filter, contains, All, ◌≡◌, refl, sym, ap, ◌∙◌, subst, arith, Bool-cases, inl, inr,
  if◌then◌else◌,
}
use claude_code_reviewer.Config.{RepoConfig}
use claude_code_reviewer.Github.{PrMeta}
use claude_code_reviewer.Github.Reads.Keeps.{reads_rules}
use claude_code_reviewer.Gates.{State, dedup_key}
use claude_code_reviewer.Db.Tables.{Db, Review}
use claude_code_reviewer.Db.Reviews.{get_review, record_hold, insert_or_replace}
use claude_code_reviewer.Db.Reviews.Judged.{get_review-record_hold}
use claude_code_reviewer.Db.Notices.{is_seeded, mark_seeded}
use claude_code_reviewer.Effects.{
  Answer, ok, gh_error, exception, World, M, pure, continue, modify, ◌>>=◌,
}
use claude_code_reviewer.Effects.Keeps.{Keeps, Keeps-if, Keeps-bind}
use claude_code_reviewer.Effects.Stored.{OnDb, OnDb_uncounted, OnDb-store, stored_rules}
use claude_code_reviewer.Orchestrator.Tick.{Process, stamp}
use claude_code_reviewer.Orchestrator.Gate.{state_of_row}
use claude_code_reviewer.Orchestrator.Once.{OnDb-dm_owner}
use claude_code_reviewer.Orchestrator.Quiet.{Keeps-stamp}
use claude_code_reviewer.Orchestrator.Cold.{
  read_backlog, hold_backlog, seed_one, seed_each, finish_seed, seed,
}

-- The row of the key is held.
abbrev pub IsHeld : List Review → String → Type 0
IsHeld rows key = state_of_row (find (λ r. r.key == key) rows) ≡ some State.held

find-kept :
    (key k : String) (rows : List Review) (row : Review)
    → (k == key) ≡ false
    → IsHeld rows key
    → IsHeld (filter (λ r. not (r.key == k)) rows ++ (row ∷ [])) key
find-kept key k [] row n h = ground arith
find-kept key k (r ∷ rows) row n h = elim (Bool-cases (r.key == key)) [
  | inl y ↦
      let other : (r.key == k) ≡ false =
        ground (arith, eq_iff r.key key, eq_iff r.key k, eq_iff k key) in
      rw (other, y) (ground (arith, h, y))
  | inr y ↦ elim (Bool-cases (r.key == k)) [
    | inl z ↦ rw z (find-kept key k rows row n (ground (arith, h, y)))
    | inr z ↦ rw (z, y) (find-kept key k rows row n (ground (arith, h, y)))
  ]
]

IsHeld-record_hold :
    (now : ℕ) (key k repo : String) (pr : ℕ) (sha requested_at reason : String) (db : Db)
    → IsHeld db.reviews key
    → IsHeld (record_hold now k repo pr sha requested_at reason db).reviews key
unfolding record_hold insert_or_replace get_review
IsHeld-record_hold now key k repo pr sha requested_at reason db h = elim (Bool-cases (k == key)) [
  | inl y ↦
      let same : k ≡ key = ground (arith, eq_iff k key) in
      subst (λ x. IsHeld (record_hold now k repo pr sha requested_at reason db).reviews x) same
        (rw (get_review-record_hold now k repo pr sha requested_at reason db) refl)
  | inr y ↦ find-kept key k db.reviews _ y h
]

module _ (p : Process) (repo : RepoConfig) where
  module _ {Q : Db → Type 0}
      (k : (now : ℕ) (key : String) (pr : ℕ) (sha requested_at reason : String) (db : Db)
        → Q db
        → Q (record_hold now key repo.slug pr sha requested_at reason db)) where
    OnDb-hold_backlog :
        (pr : ℕ) (meta : PrMeta) (requested_at : String)
        → Keeps (OnDb Q) (hold_backlog p repo pr meta requested_at)
    unfolding hold_backlog
    OnDb-hold_backlog pr meta requested_at =
        Keeps-if p.mode.dry_run (pure tt) _ (λ y. search stored_rules)
          λ y. Keeps-stamp p _ λ now w h. record {
            on =
                k now (dedup_key repo.slug pr meta.head_sha requested_at) pr meta.head_sha
                  requested_at "backlog at cold start" w.db h.on;
          }

    OnDb-read_backlog : (pr : ℕ) → Keeps (OnDb Q) (read_backlog p repo pr)
    unfolding read_backlog
    OnDb-read_backlog pr = search (stored_rules, reads_rules)

    OnDb-seed_one :
        (pr : ℕ) (rest : M Bool) (o : Option (PrMeta × String))
        → Keeps (OnDb Q) rest
        → Keeps (OnDb Q) (seed_one p repo pr rest o)
    unfolding seed_one
    OnDb-seed_one pr rest none kept = search stored_rules
    OnDb-seed_one pr rest (some (meta, requested_at)) kept =
        search (stored_rules, OnDb-hold_backlog)

    OnDb-seed_each : (prs : List ℕ) → Keeps (OnDb Q) (seed_each p repo prs)
    unfolding seed_each
    OnDb-seed_each [] = search stored_rules
    OnDb-seed_each (pr ∷ prs) =
        Keeps-bind _ _ (OnDb-read_backlog pr)
          λ o. OnDb-seed_one pr (seed_each p repo prs) o (OnDb-seed_each prs)

  -- GitHub gave the pull request's commit and request when it was asked, and the row of their key
  -- is held.
  abbrev pub IsNoted : List Review → ℕ → Type 0
  IsNoted rows pr =
      (asked : World) × (meta : PrMeta) × (requested_at : String) × ((read_backlog p repo pr
          asked).0
        ≡ ok (some (meta, requested_at)))
      × IsHeld rows (dedup_key repo.slug pr meta.head_sha requested_at)

  noted_lem :
      (now : ℕ) (key : String) (pr : ℕ) (sha requested_at reason : String) (db : Db)
      → IsHeld (record_hold now key repo.slug pr sha requested_at reason db).reviews key
  unfolding get_review
  noted_lem now key pr sha requested_at reason db =
      rw (get_review-record_hold now key repo.slug pr sha requested_at reason db) refl

  IsHeld-seed_each :
      (prs : List ℕ) (key : String) (w : World)
      → IsHeld w.db.reviews key
      → IsHeld (seed_each p repo prs w).1.db.reviews key
  IsHeld-seed_each prs key w h =
      ((OnDb-seed_each {Q = λ db. IsHeld db.reviews key}
          (λ now k pr sha requested_at reason db.
            IsHeld-record_hold now key k repo.slug pr sha requested_at reason db)
          prs).at
        w (record { on = h })).on

  module _ (loud : p.mode.dry_run ≡ false) where
    else_lem : {A : Type 0} (b : Bool) (x y : A) → b ≡ false → (if b then x else y) ≡ y
    else_lem true x y e = ground arith
    else_lem false x y e = refl

    hold_backlog_lem :
        (pr : ℕ) (meta : PrMeta) (requested_at : String) (w : World)
        → hold_backlog p repo pr meta requested_at w ≡ (
          ok tt,
          record w {
            db =
                record_hold
                  (p.time w.calls)
                  (dedup_key repo.slug pr meta.head_sha requested_at)
                  repo.slug
                  pr
                  meta.head_sha
                  requested_at
                  "backlog at cold start"
                  w.db;
          },
        )
    unfolding hold_backlog stamp modify
    hold_backlog_lem pr meta requested_at w =
        ap (λ (m : M (Unit {0})). m w) (else_lem p.mode.dry_run _ _ loud)

    All-read :
        (pr : ℕ) (prs : List ℕ)
        (ih : (w after : World)
          → seed_each p repo prs w ≡ (ok true, after)
          → All (IsNoted after.db.reviews) prs)
        (a : Answer (Option (PrMeta × String))) (asked mid after : World)
        → (read_backlog p repo pr asked).0 ≡ a
        → continue a (seed_one p repo pr (seed_each p repo prs)) mid ≡ (ok true, after)
        → All (IsNoted after.db.reviews) (pr ∷ prs)
    unfolding seed_one pure ◌>>=◌
    All-read pr prs ih (ok none) asked mid after r e = ground arith
    All-read pr prs ih (gh_error why) asked mid after r e = ground arith
    All-read pr prs ih (exception why) asked mid after r e = ground arith
    All-read pr prs ih (ok (some (meta, requested_at))) asked mid after r e =
        let key = dedup_key repo.slug pr meta.head_sha requested_at in
        let noted : World = record mid {
          db =
              record_hold (p.time mid.calls) key repo.slug pr meta.head_sha requested_at
                "backlog at cold start" mid.db;
        } in
        let e' : seed_each p repo prs noted ≡ (ok true, after) =
          sym (
            ap (λ (x : Answer (Unit {0}) × World). continue x.0 (λ _. seed_each p repo prs) x.1)
              (hold_backlog_lem pr meta requested_at mid))
          ∙ e in
        (
          (
            asked,
            meta,
            requested_at,
            r,
            subst (λ (x : Answer Bool × World). IsHeld x.1.db.reviews key) e'
                (IsHeld-seed_each prs key noted (
                  noted_lem (p.time mid.calls) key pr meta.head_sha requested_at
                    "backlog at cold start" mid.db)),
          ),
          ih noted after e',
        )

    All-seed_each :
        (prs : List ℕ) (w after : World)
        → seed_each p repo prs w ≡ (ok true, after)
        → All (IsNoted after.db.reviews) prs
    unfolding seed_each ◌>>=◌
    All-seed_each [] w after e = tt
    All-seed_each (pr ∷ prs) w after e =
        let (a, mid) = read_backlog p repo pr w in
        All-read pr prs (All-seed_each prs) a w mid after refl e

    reviews-mark_seeded : (db : Db) → (mark_seeded repo.slug db).reviews ≡ db.reviews
    unfolding mark_seeded
    reviews-mark_seeded db = elim (Bool-cases (contains db.seeded repo.slug)) [
      | inl y ↦ rw y refl
      | inr y ↦ rw y refl
    ]

    reviews-finish_seed :
        (prs : List ℕ) (w : World) → (finish_seed p repo prs w).1.db.reviews ≡ w.db.reviews
    unfolding finish_seed
    reviews-finish_seed prs w =
        let kept : Keeps (OnDb (λ db. db.reviews ≡ w.db.reviews)) (finish_seed p repo prs) =
          Keeps-bind _ _ (OnDb-store (mark_seeded repo.slug) λ db h. reviews-mark_seeded db ∙ h)
            λ done. OnDb-dm_owner p.slack _ in
        (kept.at w (record { on = refl })).on

    All-finished :
        (prs : List ℕ) (a : Answer Bool) (w mid : World)
        → seed_each p repo prs w ≡ (a, mid)
        → is_seeded mid.db repo.slug ≡ false
        → let (r, after) =
            continue a
              (λ whole.
                if not whole
                then pure tt
                else if p.mode.dry_run
                then pure tt
                else finish_seed p repo prs)
              mid in
          is_seeded after.db repo.slug ≡ true → All (IsNoted after.db.reviews) prs
    unfolding pure
    All-finished prs (ok true) w mid e off on =
        subst (λ rows. All (IsNoted rows) prs)
          (sym (
            ap (λ (m : M (Unit {0})). (m mid).1.db.reviews) (else_lem p.mode.dry_run _ _ loud)
            ∙ reviews-finish_seed prs mid))
          (All-seed_each prs w mid e)
    All-finished prs (ok false) w mid e off on = ground arith
    All-finished prs (gh_error why) w mid e off on = ground arith
    All-finished prs (exception why) w mid e off on = ground arith

  unseeded :
      (prs : List ℕ) (w : World)
      → is_seeded w.db repo.slug ≡ false
      → is_seeded (seed_each p repo prs w).1.db repo.slug ≡ false
  unfolding record_hold insert_or_replace is_seeded
  unseeded prs w h =
      ((OnDb-seed_each {Q = λ db. is_seeded db repo.slug ≡ false}
          (λ now key pr sha requested_at reason db off. off) prs).at
        w (record { on = h })).on

-- A cold start that is no dry one turns a repository on only with its whole backlog on record: where
-- the repository was not marked as seeded before and is after, each pull request of the backlog has
-- a held row under the key of the commit and the request in an answer of GitHub about that very
-- pull request.
pub IsNoted-seed :
    (p : Process) (repo : RepoConfig) (prs : List ℕ) (w : World)
    → p.mode.dry_run ≡ false
    → is_seeded w.db repo.slug ≡ false
    → is_seeded (seed p repo prs w).1.db repo.slug ≡ true
    → All (IsNoted p repo (seed p repo prs w).1.db.reviews) prs
unfolding seed ◌>>=◌
IsNoted-seed p repo prs w loud off on =
    let (a, mid) = seed_each p repo prs w in
    All-finished p repo loud prs a w mid refl (unseeded p repo prs w off) on
