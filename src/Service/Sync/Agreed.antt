-- ===== src/Service/Sync/Agreed.antt =====
-- What the attempts of a sync come to (desktop/daemon/src/sync.rs).
use opad.Tap.Float.{Float}
use opad.Model.Counters.{CounterState, reconcile_counters}
use opad.Model.Counters.Merge.{Covers}
use opad.Daemon.State.{DeviceInfo}
use opad.Service.Link.{
  PadCall, SyncReply, Shared, Outside, send_counter_sync, accepted, closed, timed_out, not_sent,
  rejected,
}
use opad.Service.Sync.{
  same_counters, tried, Attempts, attempts, refreshed, is_accepted, reply_at, replies_after,
  save_refreshed, message_of,
}
use opad.Prelude.{
  inl, inr, Bool-cases, ℕ, zero, suc, ◌+◌, ◌≡◌, refl, sym, ap, ◌∙◌, Bool, true, false, ◌||◌, none,
  some, List, [], ◌∷◌, ◌++◌, String, any, take, Result, ok, err, arith,
}

pub Covers-trans : (a b c : CounterState) → Covers a b → Covers b c → Covers a c
Covers-trans a b c p q = ground arith

pub refreshed-Covers : (c : CounterState) (r : SyncReply) → Covers (refreshed c r) c
unfolding refreshed reconcile_counters
refreshed-Covers c accepted = ground arith
refreshed-Covers c closed = ground arith
refreshed-Covers c timed_out = ground arith
refreshed-Covers c (not_sent message) = ground arith
refreshed-Covers c (rejected message none) = ground arith
refreshed-Covers c (rejected message (some now)) = ground arith

abbrev pub is_ok : {A : Type 0} → Result String A → Bool
is_ok (ok a) = true
is_ok (err e) = false

-- The value that is being sent is among the calls.
pub data Sends (c : CounterState) : List PadCall → Type 0 where
  here : (force : Bool) (calls : List PadCall) → Sends c (send_counter_sync c force ∷ calls)
  there : (call : PadCall) (calls : List PadCall) → Sends c calls → Sends c (call ∷ calls)

pub Sends-append_right :
    (c : CounterState) (before calls : List PadCall) → Sends c calls → Sends c (before ++ calls)
Sends-append_right c [] calls h = h
Sends-append_right c (x ∷ before) calls h =
    there x (before ++ calls) (Sends-append_right c before calls h)

pub Sends-append_left :
    (c : CounterState) (calls after : List PadCall) → Sends c calls → Sends c (calls ++ after)
Sends-append_left c [] after h = elim h [ ]
Sends-append_left c (x ∷ calls) after (here force rest) = here force (rest ++ after)
Sends-append_left c (x ∷ calls) after (there call rest h) =
    there call (rest ++ after) (Sends-append_left c rest after h)

any-take :
    (left : ℕ) (rs : List SyncReply)
    → any is_accepted (take (suc left) rs)
      ≡ (is_accepted (reply_at rs) || any is_accepted (take left (replies_after rs)))
any-take zero [] = refl
any-take (suc left) [] = refl
any-take left (r ∷ rs) = refl

module _ {fl : Float} (c : CounterState) (force : Bool) (heard : Shared fl)
    (rest : Attempts fl) where
  tried-is_ok : (b : Bool) → is_ok (tried fl b heard c force rest).result ≡ (b || is_ok rest.result)
  tried-is_ok true = refl
  tried-is_ok false = refl

  tried-Covers :
      (b : Bool) → Covers rest.reconciled c → Covers (tried fl b heard c force rest).reconciled c
  tried-Covers true h = ground arith
  tried-Covers false h = h

  tried-Sends :
      (b taken : Bool)
      → (taken ≡ true → Sends rest.reconciled rest.calls)
      → (b || taken) ≡ true
      → Sends (tried fl b heard c force rest).reconciled (tried fl b heard c force rest).calls
  tried-Sends true taken h e = here force []
  tried-Sends false taken h e = there (send_counter_sync c force) rest.calls (h e)

module _ (fl : Float) (out : Outside fl) (info : DeviceInfo) (force : Bool) where
  abbrev after : ℕ → List SyncReply → CounterState → Shared fl → Shared fl
  after wait rs c sh =
      out.meanwhile (wait + 1)
        (save_refreshed fl out info c (refreshed c (reply_at rs)) (out.meanwhile wait sh))

  abbrev others : ℕ → ℕ → List SyncReply → CounterState → Shared fl → Attempts fl
  others left wait rs c sh =
      attempts fl out info force left (wait + 2) (replies_after rs) (message_of (reply_at rs))
        (refreshed c (reply_at rs)) (after wait rs c sh)

  -- The attempts succeed exactly if one of the replies accepts.
  pub attempts-is_ok :
      (left wait : ℕ) (rs : List SyncReply) (message : String) (c : CounterState) (sh : Shared fl)
      → is_ok (attempts fl out info force left wait rs message c sh).result
        ≡ any is_accepted (take left rs)
  unfolding attempts
  attempts-is_ok zero wait rs message c sh = refl
  attempts-is_ok (suc left) wait rs message c sh =
      let ih =
        attempts-is_ok left (wait + 2) (replies_after rs) (message_of (reply_at rs))
          (refreshed c (reply_at rs)) (after wait rs c sh) in
      let own =
        tried-is_ok c force (out.meanwhile wait sh) (others left wait rs c sh)
          (is_accepted (reply_at rs)) in
      own ∙ (ap (λ b. is_accepted (reply_at rs) || b) ih ∙ sym (any-take left rs))

  -- The counters that are sent never fall behind those at the start.
  pub attempts-Covers :
      (left wait : ℕ) (rs : List SyncReply) (message : String) (c : CounterState) (sh : Shared fl)
      → Covers (attempts fl out info force left wait rs message c sh).reconciled c
  unfolding attempts
  attempts-Covers zero wait rs message c sh = ground arith
  attempts-Covers (suc left) wait rs message c sh =
      let next = refreshed c (reply_at rs) in
      let ih =
        attempts-Covers left (wait + 2) (replies_after rs) (message_of (reply_at rs)) next
          (after wait rs c sh) in
      tried-Covers c force (out.meanwhile wait sh) (others left wait rs c sh)
        (is_accepted (reply_at rs))
        (Covers-trans (others left wait rs c sh).reconciled next c ih
          (refreshed-Covers c (reply_at rs)))

  -- What the attempts agree on was sent.
  pub attempts-Sends :
      (left wait : ℕ) (rs : List SyncReply) (message : String) (c : CounterState) (sh : Shared fl)
      → any is_accepted (take left rs) ≡ true
      → Sends
          (attempts fl out info force left wait rs message c sh).reconciled
          (attempts fl out info force left wait rs message c sh).calls
  unfolding attempts
  attempts-Sends zero wait rs message c sh h = ground arith
  attempts-Sends (suc left) wait rs message c sh h =
      tried-Sends c force (out.meanwhile wait sh) (others left wait rs c sh)
        (is_accepted (reply_at rs)) (any is_accepted (take left (replies_after rs)))
        (attempts-Sends left (wait + 2) (replies_after rs) (message_of (reply_at rs))
          (refreshed c (reply_at rs)) (after wait rs c sh))
        (sym (any-take left rs) ∙ h)

-- The state and the queue of operations as they were.
pub record Keeps (fl : Float) (sh sh' : Shared fl) : Type 0 where
  pub state : sh'.state ≡ sh.state
  pub pending_ops : sh'.pending_ops ≡ sh.pending_ops

module _ {fl : Float} where
  pub Keeps-trans : (a b c : Shared fl) → Keeps fl a b → Keeps fl b c → Keeps fl a c
  Keeps-trans a b c p q = record {
    state = q.state ∙ p.state;
    pending_ops = q.pending_ops ∙ p.pending_ops;
  }

  pub Keeps-same : (a b : Shared fl) → b ≡ a → Keeps fl a b
  Keeps-same a b e = record { state = ap (λ s. s.state) e; pending_ops = ap (λ s. s.pending_ops) e }

  save_refreshed-Keeps :
      (out : Outside fl) (info : DeviceInfo) (before after : CounterState) (sh : Shared fl)
      → Keeps fl sh (save_refreshed fl out info before after sh)
  unfolding save_refreshed
  save_refreshed-Keeps out info before after sh = elim (Bool-cases (same_counters after before)) [
    | inl e ↦ rw e (record { state = refl; pending_ops = refl })
    | inr e ↦ rw e (record { state = refl; pending_ops = refl })
  ]

  tried-Keeps :
      (c : CounterState) (force : Bool) (sh heard : Shared fl) (rest : Attempts fl) (b : Bool)
      → Keeps fl sh heard
      → Keeps fl sh rest.shared
      → Keeps fl sh (tried fl b heard c force rest).shared
  tried-Keeps c force sh heard rest true p q = p
  tried-Keeps c force sh heard rest false p q = q

module _ (fl : Float) (out : Outside fl) (info : DeviceInfo) (force : Bool) where
  -- Where no other task interferes, the attempts leave the state and the queue as they are.
  pub attempts-Keeps :
      ((n : ℕ) (s : Shared fl) → out.meanwhile n s ≡ s)
      → (left wait : ℕ) (rs : List SyncReply) (message : String) (c : CounterState) (sh : Shared fl)
      → Keeps fl sh (attempts fl out info force left wait rs message c sh).shared
  unfolding attempts
  attempts-Keeps h zero wait rs message c sh = Keeps-same sh sh refl
  attempts-Keeps h (suc left) wait rs message c sh =
      let heard = out.meanwhile wait sh in
      let saved = save_refreshed fl out info c (refreshed c (reply_at rs)) heard in
      let first : Keeps fl sh heard = Keeps-same sh heard (h wait sh) in
      let slept : Keeps fl sh (out.meanwhile (wait + 1) saved) =
        Keeps-trans sh saved (out.meanwhile (wait + 1) saved)
          (Keeps-trans sh heard saved first
            (save_refreshed-Keeps out info c (refreshed c (reply_at rs)) heard))
          (Keeps-same saved (out.meanwhile (wait + 1) saved) (h (wait + 1) saved)) in
      tried-Keeps c force sh heard (others fl out info force left wait rs c sh)
        (is_accepted (reply_at rs)) first
        (Keeps-trans sh (out.meanwhile (wait + 1) saved)
          (others fl out info force left wait rs c sh).shared slept
          (attempts-Keeps h left (wait + 2) (replies_after rs) (message_of (reply_at rs))
            (refreshed c (reply_at rs)) (out.meanwhile (wait + 1) saved)))
