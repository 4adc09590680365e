-- ===== src/Turn/Worker/Retry.antt =====
-- The retries of `handle_inbound_message`
-- (src/vumi2/applications/turn_channels_api/turn_channels_api.py).
use mathlib.Core.List.{append_assoc, append-nil}
use native.Mathlib.Nat.{pow-zero, pow-suc}
use mathlib.Core.Path.{subst}
use vumi.Prelude.{
  ap, ℕ, zero, suc, ◌+◌, ◌-◌, ◌*◌, ◌^◌, ◌%◌, ◌≤◌, ◌<◌, ◌≡◌, refl, ◌∙◌, true, false, Option, none,
  some, List, [], ◌∷◌, ◌++◌, replicate, Error, http_error_response, Result, ok, err, arith,
  if◌then◌else◌, ltb, ◌=?◌, if-both,
}
use vumi.Messages.{Message}
use vumi.Cache.MessageCache
use vumi.Api.{Post, Reply, responded, raised, cancelled, is_success}
use vumi.Turn.Worker.{
  TurnChannelsApiConfig, TurnChannelsApi, Network, bound_of, backoff, attempt_failed, after_reply,
  post_rounds, inbound_post, handle_inbound_message,
}

-- What an attempt fails with. The time limit is no failure of an attempt: it ends them all.
abbrev pub failure : Reply → Option Error
failure (responded code) = if is_success code then none else some (http_error_response code)
failure (raised e) = some e
failure cancelled = none

abbrev pub IsSuccess : Reply → Type 0
IsSuccess (responded code) = is_success code ≡ true
IsSuccess _ = ⊥

-- An attempt fails, and the time limit does not pass in the wait after it.
pub record Fails (net : Network) (attempt : ℕ) : Type 0 where
  pub error : Error
  pub failed : failure (net.reply attempt) ≡ some error
  pub waited : net.sleep_cancelled attempt ≡ false

-- The labels and the delays of `n` attempts from `attempt` on.
abbrev pub labels : (n attempt : ℕ) → List ℕ
labels zero attempt = []
labels (suc n) attempt = (attempt + 1) ∷ labels n (attempt + 1)

abbrev pub delays : TurnChannelsApiConfig → Network → (n attempt : ℕ) → List ℕ
delays config net zero attempt = []
delays config net (suc n) attempt =
    (net.random attempt % bound_of config attempt) ∷ delays config net n (attempt + 1)

pow_pos : (b n : ℕ) → 0 < b → 0 < b ^ n
pow_pos b zero h = rw (pow-zero b) (omega arith)
pow_pos b (suc n) h = rw (pow-suc b n) (grind (arith, pow_pos b n h))

-- The requests, labels and delays that are added to a state.
abbrev pub extend :
    TurnChannelsApi → (posts : List Post) (retries sleeps : List ℕ) → TurnChannelsApi
extend s posts retries sleeps = record s {
  posts = s.posts ++ posts;
  retries = s.retries ++ retries;
  sleeps = s.sleeps ++ sleeps;
}

module _ (config : TurnChannelsApiConfig) (net : Network) (post : Post)
    (positive : 0 < config.retry_delay_base) where
  -- A failure before the last attempt leads to the next round.
  round_failed :
      (rounds attempt : ℕ) (s : TurnChannelsApi)
      → Fails net attempt
      → attempt < config.max_retries
      → post_rounds config net post (suc rounds) attempt s
        ≡ post_rounds config net post rounds (attempt + 1) (
            extend s
              (post ∷ [])
              ((attempt + 1) ∷ [])
              ((net.random attempt % bound_of config attempt) ∷ []))
  unfolding post_rounds attempt_failed backoff
  round_failed rounds attempt s f below =
      ground (arith, pow_pos config.retry_delay_base (attempt * config.retry_delay_exponent))

  extend-extend :
      (s : TurnChannelsApi) (p q : List Post) (r t x y : List ℕ)
      → extend (extend s p r x) q t y ≡ extend s (p ++ q) (r ++ t) (x ++ y)
  extend-extend s p q r t x y =
      rw (append_assoc s.posts p q, append_assoc s.retries r t, append_assoc s.sleeps x y)

  -- So do `n` failures in a row.
  rounds_failed :
      (n rounds attempt : ℕ) (s : TurnChannelsApi)
      → ((i : ℕ) → i < n → Fails net (attempt + i))
      → attempt + n ≤ config.max_retries
      → post_rounds config net post (n + rounds) attempt s
        ≡ post_rounds config net post rounds
            (attempt + n)
            (extend s (replicate n post) (labels n attempt) (delays config net n attempt))
  rounds_failed zero rounds attempt s f below =
      let a : 0 + rounds ≡ rounds = omega arith in
      let b : attempt + 0 ≡ attempt = omega arith in
      rw (a, b, append-nil s.posts, append-nil s.retries, append-nil s.sleeps)
  rounds_failed (suc n) rounds attempt s f below =
      let a : suc n + rounds ≡ suc (n + rounds) = omega arith in
      let b : attempt + suc n ≡ attempt + 1 + n = omega arith in
      let here : attempt + 0 ≡ attempt = omega arith in
      let delay = net.random attempt % bound_of config attempt in
      rw (a, b)
        (round_failed (n + rounds) attempt s (subst (λ k. Fails net k) here (f 0 (omega arith)))
            (omega arith)
          ∙ rounds_failed n rounds (attempt + 1)
              (extend s (post ∷ []) ((attempt + 1) ∷ []) (delay ∷ []))
              (λ i h.
                let later : attempt + suc i ≡ attempt + 1 + i = omega arith in
                subst (λ k. Fails net k) later (f (suc i) (omega arith)))
              (omega arith)
          ∙ ap (post_rounds config net post rounds (attempt + 1 + n)) (
              extend-extend s (post ∷ []) (replicate n post) ((attempt + 1) ∷ [])
                (labels n (attempt + 1)) (delay ∷ []) (delays config net n (attempt + 1))))

  -- A round with a success is the last one.
  round_succeeded :
      (rounds attempt : ℕ) (s : TurnChannelsApi)
      → IsSuccess (net.reply attempt)
      → post_rounds config net post (suc rounds) attempt s
        ≡ (ok tt, record s { posts = s.posts ++ (post ∷ []) })
  unfolding post_rounds
  round_succeeded rounds attempt s h = ground arith

  -- A failure of the last attempt is raised.
  round_exhausted :
      (rounds attempt : ℕ) (e : Error) (s : TurnChannelsApi)
      → failure (net.reply attempt) ≡ some e
      → config.max_retries ≤ attempt
      → post_rounds config net post (suc rounds) attempt s ≡ (
        err e,
        record s { posts = s.posts ++ (post ∷ []); retries = s.retries ++ ((attempt + 1) ∷ []) },
      )
  unfolding post_rounds attempt_failed
  round_exhausted rounds attempt e s f last = ground arith

replicate-concat {ℓ} :
    {A : Type ℓ} (n : ℕ) (a : A) → replicate n a ++ (a ∷ []) ≡ replicate (suc n) a
replicate-concat zero a = refl
replicate-concat (suc n) a = ap (◌∷◌ a) (replicate-concat n a)

labels-concat :
    (n attempt : ℕ) → labels n attempt ++ ((attempt + n + 1) ∷ []) ≡ labels (suc n) attempt
labels-concat zero attempt = let e : attempt + 0 + 1 ≡ attempt + 1 = omega arith in rw e
labels-concat (suc n) attempt =
    let e : attempt + suc n + 1 ≡ attempt + 1 + n + 1 = omega arith in
    rw e (ap (◌∷◌ (attempt + 1)) (labels-concat n (attempt + 1)))

labels_lem : (n : ℕ) → labels n 0 ++ ((n + 1) ∷ []) ≡ labels (suc n) 0
labels_lem n = let e : n + 1 ≡ 0 + n + 1 = omega arith in rw e (labels-concat n 0)

-- The state of the worker once a message is stored.
abbrev pub stored : (now stamp : ℕ) → Message → TurnChannelsApi → TurnChannelsApi
stored now stamp message s = record s {
  message_cache = MessageCache.store_inbound now stamp message s.message_cache;
}

module _ (config : TurnChannelsApiConfig) (net : Network) (now stamp : ℕ) (message : Message)
    (s : TurnChannelsApi) (positive : 0 < config.retry_delay_base) where
  -- If the first `k` attempts fail, the time limit does not pass in the waits between them, and the
  -- next attempt is answered with a status from 200 to 299, then `handle_inbound_message` returns.
  -- It has sent the same request `k + 1` times, waited `k` times, and counted the `k` failures.
  -- This needs `k` to be at most `max_retries` and a positive `retry_delay_base`.
  pub handle_inbound_message_delivers :
      (k : ℕ)
      → k ≤ config.max_retries
      → ((i : ℕ) → i < k → Fails net i)
      → IsSuccess (net.reply k)
      → handle_inbound_message config net now stamp message s ≡ (
        ok tt,
        extend
            (stored now stamp message s)
            (replicate (suc k) (inbound_post config message))
            (labels k 0)
            (delays config net k 0),
      )
  unfolding handle_inbound_message
  handle_inbound_message_delivers k below f success =
      let post = inbound_post config message in
      let t = stored now stamp message s in
      let ps = replicate k post in
      let rounds = config.max_retries - k in
      let total : config.max_retries + 1 ≡ k + suc rounds = omega arith in
      let at_k : 0 + k ≡ k = omega arith in
      rw total (
        rounds_failed config net post positive k (suc rounds) 0 t
          (λ i h. let at_i : 0 + i ≡ i = omega arith in rw at_i (f i h)) (omega arith)
        ∙ rw at_k (
            round_succeeded config net post positive rounds k
              (extend t ps (labels k 0) (delays config net k 0)) success
            ∙ rw (append_assoc t.posts ps (post ∷ []), replicate-concat k post)))

  -- If every attempt fails, and the time limit does not pass in the waits between them, then
  -- `handle_inbound_message` raises the error of the last attempt. It has sent the same request
  -- `max_retries + 1` times, waited between any two, and counted every failure. This needs a positive
  -- `retry_delay_base`.
  pub handle_inbound_message_exhausted :
      (e : Error)
      → ((i : ℕ) → i < config.max_retries → Fails net i)
      → failure (net.reply config.max_retries) ≡ some e
      → handle_inbound_message config net now stamp message s ≡ (
        err e,
        extend
            (stored now stamp message s)
            (replicate (suc config.max_retries) (inbound_post config message))
            (labels (suc config.max_retries) 0)
            (delays config net config.max_retries 0),
      )
  unfolding handle_inbound_message
  handle_inbound_message_exhausted e f failed =
      let k = config.max_retries in
      let post = inbound_post config message in
      let t = stored now stamp message s in
      let ps = replicate k post in
      let ls = labels k 0 in
      let total : config.max_retries + 1 ≡ k + 1 = omega arith in
      let at_k : 0 + k ≡ k = omega arith in
      rw total (
        rounds_failed config net post positive k 1 0 t
          (λ i h. let at_i : 0 + i ≡ i = omega arith in rw at_i (f i h)) (omega arith)
        ∙ rw at_k (
            round_exhausted config net post positive 0 k e (extend t ps ls (delays config net k 0))
              failed (omega arith)
            ∙ rw (
              append_assoc t.posts ps (post ∷ []),
              replicate-concat k post,
              append_assoc t.retries ls ((k + 1) ∷ []),
              labels_lem k,
            )))

-- What the loop does in every case: it repeats the request at most `n` times, and publishes
-- nothing.
pub record Repeats (n : ℕ) (post : Post) (s t : TurnChannelsApi) : Type 0 where
  pub times : ℕ
  pub within : times ≤ n
  pub repeated : t.posts ≡ s.posts ++ replicate times post
  pub same_published : t.published ≡ s.published
  pub same_cache : t.message_cache ≡ s.message_cache

abbrev Done : Type 0
Done = Result (Unit {0}) × TurnChannelsApi

-- The `elim` of `attempt_failed` on what `backoff` gives.
abbrev if_waited : (TurnChannelsApi → Done) → Done → Done
if_waited next (res, s) = elim res [ err e ↦ (err e, s) | ok _ ↦ next s ]

module _ (config : TurnChannelsApiConfig) (net : Network) (post : Post) where
  Repeats-once :
      (n : ℕ) (s t : TurnChannelsApi)
      → t.posts ≡ s.posts ++ (post ∷ [])
      → t.published ≡ s.published
      → t.message_cache ≡ s.message_cache
      → Repeats (suc n) post s t
  Repeats-once n s t e p c = record {
    times = 1;
    within = omega arith;
    repeated = e;
    same_published = p;
    same_cache = c;
  }

  Repeats-next :
      (n : ℕ) (s t u : TurnChannelsApi)
      → t.posts ≡ s.posts ++ (post ∷ [])
      → t.published ≡ s.published
      → t.message_cache ≡ s.message_cache
      → Repeats n post t u
      → Repeats (suc n) post s u
  Repeats-next n s t u e p c r = record {
    times = suc r.times;
    within = omega (arith, r.within);
    repeated = r.repeated ∙ rw (e, append_assoc s.posts (post ∷ []) (replicate r.times post));
    same_published = r.same_published ∙ p;
    same_cache = r.same_cache ∙ c;
  }

  -- The `except` clause after the request of this round.
  attempt_failed-Repeats :
      (n attempt : ℕ) (e : Error) (next : TurnChannelsApi → Done) (s t : TurnChannelsApi)
      → t.posts ≡ s.posts ++ (post ∷ [])
      → t.published ≡ s.published
      → t.message_cache ≡ s.message_cache
      → ((u : TurnChannelsApi) → Repeats n post u (next u).1)
      → Repeats (suc n) post s (attempt_failed config net attempt e next t).1
  unfolding attempt_failed backoff
  attempt_failed-Repeats n attempt e next s t h p c ih =
      if-both (λ (r : Done). Repeats (suc n) post s r.1) (ltb attempt config.max_retries)
        (if-both (λ (r : Done). Repeats (suc n) post s (if_waited next r).1)
          (bound_of config attempt =? 0) (Repeats-once n s _ h p c)
          (if-both
            (λ (r : Result (Unit {0})). Repeats (suc n) post s (if_waited next (r, waited)).1)
            (net.sleep_cancelled attempt) (Repeats-once n s _ h p c)
            (Repeats-next n s _ _ h p c (ih waited))))
        (Repeats-once n s _ h p c)
    where
      waited : TurnChannelsApi
      waited = record t {
        retries = t.retries ++ ((attempt + 1) ∷ []);
        sleeps = t.sleeps ++ ((net.random attempt % bound_of config attempt) ∷ []);
      }

  after_reply-Repeats :
      (n attempt : ℕ) (reply : Reply) (next : TurnChannelsApi → Done) (s t : TurnChannelsApi)
      → t.posts ≡ s.posts ++ (post ∷ [])
      → t.published ≡ s.published
      → t.message_cache ≡ s.message_cache
      → ((u : TurnChannelsApi) → Repeats n post u (next u).1)
      → Repeats (suc n) post s (after_reply config net attempt reply next t).1
  unfolding after_reply
  after_reply-Repeats n attempt cancelled next s t h p c ih = Repeats-once n s t h p c
  after_reply-Repeats n attempt (raised e) next s t h p c ih =
      attempt_failed-Repeats n attempt e next s t h p c ih
  after_reply-Repeats n attempt (responded code) next s t h p c ih =
      if-both (λ (r : Done). Repeats (suc n) post s r.1) (is_success code)
        (Repeats-once n s t h p c)
        (attempt_failed-Repeats n attempt (http_error_response code) next s t h p c ih)

  post_rounds-Repeats :
      (rounds attempt : ℕ) (s : TurnChannelsApi)
      → Repeats rounds post s (post_rounds config net post rounds attempt s).1
  unfolding post_rounds
  post_rounds-Repeats zero attempt s = record {
    times = 0;
    within = omega arith;
    repeated = rw (append-nil s.posts);
    same_published = refl;
    same_cache = refl;
  }
  post_rounds-Repeats (suc rounds) attempt s =
      after_reply-Repeats rounds attempt (net.reply attempt) _ s _ refl refl refl
        (post_rounds-Repeats rounds (attempt + 1))

-- Whatever the server answers and however long it takes, `handle_inbound_message` sends one and the
-- same request at most `max_retries + 1` times, publishes nothing, and keeps the message stored.
pub handle_inbound_message-Repeats :
    (config : TurnChannelsApiConfig) (net : Network) (now stamp : ℕ) (message : Message)
    (s : TurnChannelsApi)
    → Repeats
        (config.max_retries + 1)
        (inbound_post config message)
        (stored now stamp message s)
        (handle_inbound_message config net now stamp message s).1
unfolding handle_inbound_message
handle_inbound_message-Repeats config net now stamp message s =
    post_rounds-Repeats config net (inbound_post config message) (config.max_retries + 1) 0
      (stored now stamp message s)
