-- ===== src/Orchestrator/Once.antt =====
-- What is said or recorded once is not said or recorded again.
use claude_code_reviewer.Prelude.{
  ℕ, String, Bool, true, false, not, ◌&&◌, Option, none, some, ◌≡◌, refl, sym, subst, arith, eq_iff,
  string_eq, Bool-cases, inl, inr,
}
use claude_code_reviewer.Config.{RepoConfig}
use claude_code_reviewer.Github.{PrMeta}
use claude_code_reviewer.Github.Reads.{pr_meta, last_review_request}
use claude_code_reviewer.Github.Reads.Keeps.{Keeps-pr_meta, Keeps-last_review_request}
use claude_code_reviewer.Gates.{
  State, Decision, decide, skip, label_hold, done_label, already_judged, dedup_key,
}
use claude_code_reviewer.Db.Tables.{Db, Review}
use claude_code_reviewer.Db.Reviews.{get_review}
use claude_code_reviewer.Db.Reviews.Judged.{get_review-record_hold}
use claude_code_reviewer.Db.Notices.{notice_seen, notice_once}
use claude_code_reviewer.Db.Notices.Once.{notice_once_lem}
use claude_code_reviewer.Slack.{Slack, dm_owner, post_to, relayed}
use claude_code_reviewer.Effects.{
  Answer, ok, gh_error, exception, World, continue, M, pure, gets, modify, store_get, ◌>>=◌, ◌>>◌,
}
use claude_code_reviewer.Effects.Keeps.{Keeps}
use claude_code_reviewer.Effects.Stored.{OnDb, OnDb_uncounted, stored_rules}
use claude_code_reviewer.Publish.{PublishResult, once_per, spend_key}
use claude_code_reviewer.Orchestrator.Tick.{Process, Outcome, is_quiet, dm_owner_once, stamp}
use claude_code_reviewer.Orchestrator.Gate.{
  gate, with_meta, with_done, with_request, with_row, gated, state_of_row,
}
use claude_code_reviewer.Orchestrator.Act.{act_hold, record_if, tell, outcome}

seen_after : (key : String) (db : Db) → notice_seen (notice_once key db).1 key ≡ true
seen_after key db = ground (arith, (notice_once_lem key db).1 key, eq_iff key key)

module _ {Q : Db → Type 0} where
  OnDb-post_to : (s : Slack) (channel text : String) → Keeps (OnDb Q) (post_to s channel text)
  unfolding post_to
  OnDb-post_to s channel text = search stored_rules

  OnDb-relayed :
      (s : Slack) (o : Option (String → ℕ → Bool)) (text : String)
      → Keeps (OnDb Q) (relayed s o text)
  OnDb-relayed s none text = search stored_rules
  OnDb-relayed s (some takes) text = search stored_rules

  pub OnDb-dm_owner : (s : Slack) (text : String) → Keeps (OnDb Q) (dm_owner s text)
  unfolding dm_owner
  OnDb-dm_owner s text = search (stored_rules, OnDb-post_to, OnDb-relayed)

module _ (p : Process) (q : is_quiet p.mode ≡ false) where
  dm_owner_once_seen :
      (key text : String) (w : World)
      → notice_seen w.db key ≡ true
      → dm_owner_once p key text w ≡ (ok tt, w)
  unfolding dm_owner_once ◌>>=◌ store_get notice_once pure
  dm_owner_once_seen key text w h = rw (q, h) refl

  IsSeen-dm_owner_once :
      (key text : String) (w : World) → notice_seen (dm_owner_once p key text w).1.db key ≡ true
  unfolding dm_owner_once ◌>>=◌ store_get pure
  IsSeen-dm_owner_once key text w = rw q (elim (Bool-cases (notice_once key w.db).0) [
    | inl y ↦
        rw y
          ((OnDb-dm_owner {Q = λ db. notice_seen db key ≡ true} p.slack text).at
            (record w { db = (notice_once key w.db).1 }) (record { on = seen_after key w.db })).on
    | inr y ↦ rw y (seen_after key w.db)
  ])

-- The operator hears of a key once: with a message already sent, or on a second call, nothing
-- changes. A quiet run, which spends no key, is left out.
pub dm_owner_once_again :
    (p : Process) (key text later : String) (w : World)
    → is_quiet p.mode ≡ false
    → let after = (dm_owner_once p key text w).1 in dm_owner_once p key later after ≡ (ok tt, after)
dm_owner_once_again p key text later w q =
    let after = (dm_owner_once p key text w).1 in
    dm_owner_once_seen p q key later after (IsSeen-dm_owner_once p q key text w)

spend_key_posted :
    (key : String) (r₀ r : PublishResult) (w after : World)
    → spend_key key r₀ w ≡ (ok (some r), after)
    → r.posted ≡ true
    → notice_seen after.db key ≡ true
unfolding spend_key ◌>>=◌ pure store_get
spend_key_posted key r₀ r w after e h = elim (Bool-cases r₀.posted) [
  | inl y ↦ ground (arith, seen_after key w.db)
  | inr y ↦ ground arith
]

answered_posted :
    (key : String) (a : Answer PublishResult) (r : PublishResult) (w after : World)
    → continue a (spend_key key) w ≡ (ok (some r), after)
    → r.posted ≡ true
    → notice_seen after.db key ≡ true
answered_posted key (ok r₀) r w after e h = spend_key_posted key r₀ r w after e h
answered_posted key (gh_error why) r w after e h = ground arith
answered_posted key (exception why) r w after e h = ground arith

once_per_posted :
    (key : String) (m : M PublishResult) (quiet : Bool) (w after : World) (r : PublishResult)
    → once_per key m quiet w ≡ (ok (some r), after)
    → r.posted ≡ true
    → notice_seen after.db key ≡ true
unfolding once_per ◌>>=◌ gets pure
once_per_posted key m quiet w after r e h = elim (Bool-cases (not quiet && notice_seen w.db key)) [
  | inl y ↦ ground arith
  | inr y ↦ answered_posted key (m w).0 r (m w).1 after (ground arith) h
]

-- Once a call of `once_per` has returned what it posted, a later call on the same key posts nothing
-- as long as the key stands in the store, unless the run is quiet: it changes nothing and says that
-- the post went out already. A post that reached GitHub in a call that then raised spends no key,
-- and is not covered.
pub once_per_again :
    (key : String) (m later : M PublishResult) (quiet : Bool) (w after now : World)
    (r : PublishResult)
    → once_per key m quiet w ≡ (ok (some r), after)
    → r.posted ≡ true
    → notice_seen now.db key ≡ notice_seen after.db key
    → once_per key later false now ≡ (ok none, now)
unfolding once_per ◌>>=◌ gets pure
once_per_again key m later quiet w after now r e h stands =
    rw (stands, once_per_posted key m quiet w after r e h) refl

-- The verdict of gate 4 on a row that is held.
held_skip :
    (o : Option Review)
    → state_of_row o ≡ some State.held
    → already_judged (state_of_row o)
      ≡ some (decide skip "already judged at this commit and request")
unfolding already_judged
held_skip o h = rw h refl

-- The gate on a key whose row is held.
gate-held :
    (p : Process) (repo : RepoConfig) (pr : ℕ) (meta : PrMeta) (requested_at : String)
    (w between after : World)
    → pr_meta p.hub repo.slug pr w ≡ (ok meta, between)
    → label_hold meta repo ≡ none
    → done_label meta repo ≡ none
    → last_review_request p.hub repo.slug pr repo.reviewer_login between ≡ (ok requested_at, after)
    → state_of_row (get_review after.db (dedup_key repo.slug pr meta.head_sha requested_at))
      ≡ some State.held
    → gate p repo pr w ≡ (
      ok (
          gated meta
            (dedup_key repo.slug pr meta.head_sha requested_at)
            requested_at
            (decide skip "already judged at this commit and request")),
      after,
    )
unfolding gate with_meta with_done with_request with_row ◌>>=◌ gets pure
gate-held p repo pr meta requested_at w between after em el ed er h =
    rw (em, el, ed, er, held_skip _ h) refl

held_row :
    (p : Process) (repo : RepoConfig) (meta : PrMeta) (key requested_at : String) (d : Decision)
    (w : World)
    → is_quiet p.mode ≡ false
    → d.recorded ≡ true
    → state_of_row (get_review (record_if p repo meta key requested_at d w).1.db key)
      ≡ some State.held
unfolding record_if stamp modify
held_row p repo meta key requested_at d w q h =
    rw
      (
        q,
        h,
        get_review-record_hold (p.time w.calls) key repo.slug meta.number meta.head_sha requested_at
            d.reason w.db,
      )
      refl

recorded :
    (p : Process) (repo : RepoConfig) (meta : PrMeta) (key requested_at : String) (d : Decision)
    (w : World)
    → is_quiet p.mode ≡ false
    → d.recorded ≡ true
    → (record_if p repo meta key requested_at d w).0 ≡ ok tt
unfolding record_if stamp modify
recorded p repo meta key requested_at d w q h = rw (q, h) refl

-- A store in which the row of a key is held.
abbrev HeldDb : String → World → Type 0
HeldDb key = OnDb (λ db. state_of_row (get_review db key) ≡ some State.held)

HeldDb-told :
    (p : Process) (repo : RepoConfig) (meta : PrMeta) (key requested_at : String) (d : Decision)
    (a : Answer (Unit {0})) (w held : World) (o : Outcome)
    → is_quiet p.mode ≡ false
    → d.recorded ≡ true
    → continue a
        (λ _. record_if p repo meta key requested_at d >> pure (outcome repo meta "hold" d.reason))
        w
      ≡ (ok o, held)
    → HeldDb key held
unfolding ◌>>=◌ pure
HeldDb-told p repo meta key requested_at d (ok u) w held o q h e =
    let same : (record_if p repo meta key requested_at d w).1 ≡ held =
      ground (arith, recorded p repo meta key requested_at d w q h) in
    record {
      on =
          subst (λ (x : World). state_of_row (get_review x.db key) ≡ some State.held) same
            (held_row p repo meta key requested_at d w q h);
    }
HeldDb-told p repo meta key requested_at d (gh_error why) w held o q h e = ground arith
HeldDb-told p repo meta key requested_at d (exception why) w held o q h e = ground arith

HeldDb-act_hold :
    (p : Process) (repo : RepoConfig) (meta : PrMeta) (key requested_at : String) (d : Decision)
    (w held : World) (o : Outcome)
    → is_quiet p.mode ≡ false
    → d.recorded ≡ true
    → act_hold p repo meta key requested_at d w ≡ (ok o, held)
    → HeldDb key held
unfolding act_hold ◌>>=◌
HeldDb-act_hold p repo meta key requested_at d w held o q h e =
    let (a, told) = tell p key d.dm w in
    HeldDb-told p repo meta key requested_at d a told held o q h e

-- Once a recorded hold was carried out, unless quietly, the next gate that reads the same commit and
-- the same request skips the pull request, where no brake label and no done label is on it then: no
-- thread is read. What else was read of it may have changed.
pub gate-act_hold :
    (p : Process) (repo : RepoConfig) (pr : ℕ) (meta next : PrMeta) (requested_at : String)
    (d : Decision) (w held between after : World) (o : Outcome)
    → is_quiet p.mode ≡ false
    → d.recorded ≡ true
    → let key = dedup_key repo.slug pr meta.head_sha requested_at in
      act_hold p repo meta key requested_at d w ≡ (ok o, held)
      → pr_meta p.hub repo.slug pr held ≡ (ok next, between)
      → next.head_sha ≡ meta.head_sha
      → label_hold next repo ≡ none
      → done_label next repo ≡ none
      → last_review_request p.hub repo.slug pr repo.reviewer_login between
        ≡ (ok requested_at, after)
      → gate p repo pr held ≡ (
        ok (
            gated next
              (dedup_key repo.slug pr next.head_sha requested_at)
              requested_at
              (decide skip "already judged at this commit and request")),
        after,
      )
gate-act_hold p repo pr meta next requested_at d w held between after o q r e em same el ed er =
    let key = dedup_key repo.slug pr meta.head_sha requested_at in
    let first = HeldDb-act_hold p repo meta key requested_at d w held o q r e in
    let second : HeldDb key between =
      subst (λ (x : Answer PrMeta × World). HeldDb key x.1) em
        ((Keeps-pr_meta p.hub {P = HeldDb key} repo.slug pr).at held first) in
    let third : HeldDb key after =
      subst (λ (x : Answer String × World). HeldDb key x.1) er
        ((Keeps-last_review_request p.hub {P = HeldDb key} repo.slug pr repo.reviewer_login).at
          between second) in
    gate-held p repo pr next requested_at held between after em el ed er (
      subst
        (λ sha.
          state_of_row (get_review after.db (dedup_key repo.slug pr sha requested_at))
          ≡ some State.held)
        (sym same) third.on)
