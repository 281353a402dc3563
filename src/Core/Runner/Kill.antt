-- ===== src/Core/Runner/Kill.antt =====
-- Kills: one thread finalizes an actor, and how a kill is lost.
use dignus_actor_server_rust.Common.{ℕ, ◌+◌, ◌≡◌, ◌≢◌, refl, ◌∙◌, ◌⊎◌, false, length, arith, ap}
use dignus_actor_server_rust.Core.Runner.{
  killing, stopped, ActorRunner, new, Step, post, refuse, enqueue, enqueue_full, see_scheduled,
  see_free, swap_lost, swap_won, kill, kill_late, kill_lost, kill_won, schedule, start, see_active,
  see_idle, see_idle_late, start_running, start_killing, start_stopped, dequeue, dequeue_none,
  receive, drop_mail, done, panic, crash_late, crash_kill, crash_lost, crash_won, arm, activate,
  reset_armed, reset, lock_full, lock_empty, lock_empty_first, poll_pending, poll_ended, deactivate,
  reset_ended, complete, fail_first, fail, fail_late, fail_kill, fail_lost, fail_won, wake,
  wake_lost, mark, mark_late, after_killing, after_live, release, peek_none, peek_some, reswap_lost,
  reswap_won, finalize, finalize_again, drain, drain_none, clear, clear_active, clear_reset,
  on_kill, on_kill_panic, on_finalize, Reach, here, later,
}
use dignus_actor_server_rust.Core.Runner.Turn.{turns}

-- The threads behind the swap of `finalize_kill`, and the ways they have ended.
abbrev pub finalizers : {M : Type 0} → ActorRunner M → ℕ
finalizers r =
    r.draining + r.emptied + r.clearing + r.cleared + r.hooking + r.finishing + r.finalized + r.died

-- One thread wins the swap of a stopped actor.
record Finalized {M : Type 0} (r : ActorRunner M) : Type 0 where
  pub once :
      ((r.lifecycle ≡ stopped) × (finalizers r ≡ 1))
      ⊎ ((r.lifecycle ≢ stopped) × (finalizers r ≡ 0))

Finalized-new : (M : Type 0) (capacity : ℕ) → Finalized (new M capacity)
unfolding new
Finalized-new M capacity = record { once = ground arith }

-- An actor that is being killed, has no turn and no pending receive, and has nobody left who would
-- give it a turn: no poster, no killer, no thread at the end of `execute`, no wake on its way.
pub record Stuck {M : Type 0} (r : ActorRunner M) : Type 0 where
  pub dying : r.lifecycle ≡ killing
  pub idle : turns r ≡ 0
  pub no_thread :
      r.killers + r.posting + r.posted + r.swapping + r.peeking + r.reswapping + r.waking ≡ 0
  pub inactive : r.is_active ≡ false
  pub unpolled : r.polling ≡ 0

module _ {M : Type 0} where
  Step-Finalized : {r t : ActorRunner M} → Step r t → Finalized r → Finalized t
  Step-Finalized (post h) v = ground arith
  Step-Finalized (refuse h) v = ground arith
  Step-Finalized (enqueue m h p) v = ground arith
  Step-Finalized (enqueue_full h p) v = ground arith
  Step-Finalized (see_scheduled h p) v = ground arith
  Step-Finalized (see_free h p) v = ground arith
  Step-Finalized (swap_lost h p) v = ground arith
  Step-Finalized (swap_won h p) v = ground arith
  Step-Finalized (kill h) v = ground arith
  Step-Finalized (kill_late h) v = ground arith
  Step-Finalized (kill_lost h p) v = ground arith
  Step-Finalized (kill_won h p) v = ground arith
  Step-Finalized (schedule h) v = ground arith
  Step-Finalized (start h) v = ground arith
  Step-Finalized (see_active h p) v = ground arith
  Step-Finalized (see_idle h p q) v = ground arith
  Step-Finalized (see_idle_late h p q) v = ground arith
  Step-Finalized (start_running h p) v = ground arith
  Step-Finalized (start_killing h p) v = ground arith
  Step-Finalized (start_stopped h p) v = ground arith
  Step-Finalized (dequeue h p) v = ground arith
  Step-Finalized (dequeue_none h p) v = ground arith
  Step-Finalized (receive h p) v = ground arith
  Step-Finalized (drop_mail h p) v = ground arith
  Step-Finalized (done h) v = ground arith
  Step-Finalized (panic h) v = ground arith
  Step-Finalized (crash_late h p) v = ground arith
  Step-Finalized (crash_kill h p) v = ground arith
  Step-Finalized (crash_lost h p) v = ground arith
  Step-Finalized (crash_won h p) v = ground arith
  Step-Finalized (arm h p) v = ground arith
  Step-Finalized (activate h) v = ground arith
  Step-Finalized (reset_armed h) v = ground arith
  Step-Finalized (reset h) v = ground arith
  Step-Finalized (lock_full h p q) v = ground arith
  Step-Finalized (lock_empty h p) v = ground arith
  Step-Finalized (lock_empty_first h p) v = ground arith
  Step-Finalized (poll_pending h) v = ground arith
  Step-Finalized (poll_ended h) v = ground arith
  Step-Finalized (deactivate h) v = ground arith
  Step-Finalized (reset_ended h) v = ground arith
  Step-Finalized (complete h) v = ground arith
  Step-Finalized (fail_first h) v = ground arith
  Step-Finalized (fail h) v = ground arith
  Step-Finalized (fail_late h p) v = ground arith
  Step-Finalized (fail_kill h p) v = ground arith
  Step-Finalized (fail_lost h p) v = ground arith
  Step-Finalized (fail_won h p) v = ground arith
  Step-Finalized (wake h) v = ground arith
  Step-Finalized (wake_lost h p) v = ground arith
  Step-Finalized (mark h p q) v = ground arith
  Step-Finalized (mark_late h p q) v = ground arith
  Step-Finalized (after_killing h p) v = ground arith
  Step-Finalized (after_live h p) v = ground arith
  Step-Finalized (release h) v = ground arith
  Step-Finalized (peek_none h p) v = ground arith
  Step-Finalized (peek_some h p) v = ground arith
  Step-Finalized (reswap_lost h p) v = ground arith
  Step-Finalized (reswap_won h p) v = ground arith
  Step-Finalized (finalize h p) v = ground arith
  Step-Finalized (finalize_again h p) v = ground arith
  Step-Finalized (drain h p) v = ground arith
  Step-Finalized (drain_none h p) v = ground arith
  Step-Finalized (clear h p) v = ground arith
  Step-Finalized (clear_active h) v = ground arith
  Step-Finalized (clear_reset h) v = ground arith
  Step-Finalized (on_kill h) v = ground arith
  Step-Finalized (on_kill_panic h) v = ground arith
  Step-Finalized (on_finalize h) v = ground arith

  Reach-Finalized : (capacity : ℕ) {r : ActorRunner M} → Reach (new M capacity) r → Finalized r
  Reach-Finalized capacity here = Finalized-new M capacity
  Reach-Finalized capacity (later s t) = Step-Finalized t (Reach-Finalized capacity s)

  -- In every interleaving one thread at most gets past the swap of `finalize_kill`: while the actor is
  -- stopped exactly one is on its way through the drain, `clear` and `on_kill`, or has called
  -- `on_finalize`, or has ended in a panic of `on_kill`; before that nobody has. So `on_finalize` is
  -- called once at most, and never where `on_kill` panicked.
  pub finalized_once :
      (capacity : ℕ) (r : ActorRunner M)
      → Reach (new M capacity) r
      → ((r.lifecycle ≡ stopped) × (finalizers r ≡ 1))
        ⊎ ((r.lifecycle ≢ stopped) × (finalizers r ≡ 0))
  finalized_once capacity r s = (Reach-Finalized capacity s).once

  Step-Stuck : {r t : ActorRunner M} → Step r t → Stuck r → Stuck t × (t.finalized ≡ r.finalized)
  Step-Stuck (post h) v = ground arith
  Step-Stuck (refuse h) v = ground arith
  Step-Stuck (enqueue m h p) v = ground arith
  Step-Stuck (enqueue_full h p) v = ground arith
  Step-Stuck (see_scheduled h p) v = ground arith
  Step-Stuck (see_free h p) v = ground arith
  Step-Stuck (swap_lost h p) v = ground arith
  Step-Stuck (swap_won h p) v = ground arith
  Step-Stuck (kill h) v = ground arith
  Step-Stuck (kill_late h) v = ground arith
  Step-Stuck (kill_lost h p) v = ground arith
  Step-Stuck (kill_won h p) v = ground arith
  Step-Stuck (schedule h) v = ground arith
  Step-Stuck (start h) v = ground arith
  Step-Stuck (see_active h p) v = ground arith
  Step-Stuck (see_idle h p q) v = ground arith
  Step-Stuck (see_idle_late h p q) v = ground arith
  Step-Stuck (start_running h p) v = ground arith
  Step-Stuck (start_killing h p) v = ground arith
  Step-Stuck (start_stopped h p) v = ground arith
  Step-Stuck (dequeue h p) v = ground arith
  Step-Stuck (dequeue_none h p) v = ground arith
  Step-Stuck (receive h p) v = ground (arith, ap length h)
  Step-Stuck (drop_mail h p) v = ground (arith, ap length h)
  Step-Stuck (done h) v = ground arith
  Step-Stuck (panic h) v = ground arith
  Step-Stuck (crash_late h p) v = ground arith
  Step-Stuck (crash_kill h p) v = ground arith
  Step-Stuck (crash_lost h p) v = ground arith
  Step-Stuck (crash_won h p) v = ground arith
  Step-Stuck (arm h p) v = ground arith
  Step-Stuck (activate h) v = ground arith
  Step-Stuck (reset_armed h) v = ground arith
  Step-Stuck (reset h) v = ground arith
  Step-Stuck (lock_full h p q) v = ground arith
  Step-Stuck (lock_empty h p) v = ground arith
  Step-Stuck (lock_empty_first h p) v = ground arith
  Step-Stuck (poll_pending h) v = ground arith
  Step-Stuck (poll_ended h) v = ground arith
  Step-Stuck (deactivate h) v = ground arith
  Step-Stuck (reset_ended h) v = ground arith
  Step-Stuck (complete h) v = ground arith
  Step-Stuck (fail_first h) v = ground arith
  Step-Stuck (fail h) v = ground arith
  Step-Stuck (fail_late h p) v = ground arith
  Step-Stuck (fail_kill h p) v = ground arith
  Step-Stuck (fail_lost h p) v = ground arith
  Step-Stuck (fail_won h p) v = ground arith
  Step-Stuck (wake h) v = ground arith
  Step-Stuck (wake_lost h p) v = ground arith
  Step-Stuck (mark h p q) v = ground arith
  Step-Stuck (mark_late h p q) v = ground arith
  Step-Stuck (after_killing h p) v = ground arith
  Step-Stuck (after_live h p) v = ground arith
  Step-Stuck (release h) v = ground arith
  Step-Stuck (peek_none h p) v = ground arith
  Step-Stuck (peek_some h p) v = ground arith
  Step-Stuck (reswap_lost h p) v = ground arith
  Step-Stuck (reswap_won h p) v = ground arith
  Step-Stuck (finalize h p) v = ground arith
  Step-Stuck (finalize_again h p) v = ground arith
  Step-Stuck (drain h p) v = ground arith
  Step-Stuck (drain_none h p) v = ground arith
  Step-Stuck (clear h p) v = ground arith
  Step-Stuck (clear_active h) v = ground arith
  Step-Stuck (clear_reset h) v = ground arith
  Step-Stuck (on_kill h) v = ground arith
  Step-Stuck (on_kill_panic h) v = ground arith
  Step-Stuck (on_finalize h) v = ground arith

  Reach-Stuck : {r t : ActorRunner M} → Reach r t → Stuck r → Stuck t × (t.finalized ≡ r.finalized)
  Reach-Stuck here v = (v, refl)
  Reach-Stuck (later s t) v =
      let w = Reach-Stuck s v in let x = Step-Stuck t w.0 in (x.0, x.1 ∙ w.1)

  -- A kill can be lost: an actor whose lifecycle is killing, without a turn, an active future, or a
  -- thread in `enqueue_only`, `kill`, the end of `execute` or behind the test of `is_active` of a wake,
  -- is never finalized, whatever threads do from then on: posts are refused, another kill does nothing,
  -- and a wake finds the driver inactive.
  pub lost_kill_is_final :
      (r t : ActorRunner M)
      → Stuck r
      → Reach r t
      → (t.lifecycle ≡ killing) × (t.finalized ≡ r.finalized)
  lost_kill_is_final r t v s = let w = Reach-Stuck s v in (w.0.dying, w.1)
