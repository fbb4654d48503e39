-- ===== src/Overload/Manager/History.antt =====
-- The overload manager (crates/runtime/src/overload_management.rs) over histories of calls: what it
-- keeps is the window over all signals so far.
use way_balancer.Base.{
  ℕ, ◌≤◌, ◌≡◌, refl, ap, ◌∙◌, sym, ◌⊎◌, true, List, [], ◌∷◌, ◌++◌, All, filter-append, All-append,
  All-filter, ok, u64_max, arith, inl, inr,
}
use mathlib.Core.List.{append-nil, append_assoc}
use way_balancer.Base.Order.{same_iff, list_ord, nat_ord}
use way_balancer.Overload.{
  OverloadPolicy, OverloadState, OverloadSignal, TrafficClass, classify_state, same_state,
}
use way_balancer.Overload.Brownout.{BrownoutHookRegistry, NameSet, disabled_features_for}
use way_balancer.Overload.Manager.{
  OverloadManager, SignalSample, SheddingAction, allow, shed, new, observe, apply_brownout,
  record_signal, snapshot, snapshot_of, metrics, decide, count_shed, action_in, evict_old_samples,
  sum_counts, aggregate_signal_counts,
}
use way_balancer.Overload.Manager.Window.{
  Ascending, recent, is_recent, active, evict-filter, recent_twice, recent-Ascending,
  sum_counts-aggregate,
}

pub data Call : Type 0 where
  signal : ℕ → OverloadSignal → Call
  look gauge : ℕ → Call
  request : TrafficClass → Call

pub step : OverloadManager → Call → OverloadManager
step m (signal now s) = (record_signal m now s).0
step m (look now) = (snapshot m now).0
step m (gauge now) = (metrics m now).0
step m (request c) = (decide (λ n. n) m c).0

unfoldable pub run : OverloadManager → List Call → OverloadManager
run m [] = m
run m (c ∷ cs) = run (step m c) cs

-- All signals of a history, old ones included.
abbrev pub seen : List Call → List SignalSample
seen [] = []
seen (signal now s ∷ cs) = record { observed_at = now; signal = s } ∷ seen cs
seen (look now ∷ cs) = seen cs
seen (gauge now ∷ cs) = seen cs
seen (request c ∷ cs) = seen cs

-- The clock of the calls does not go back, from `t` on, and ends at `last`.
abbrev pub IsForward : ℕ → List Call → ℕ → Type 0
IsForward t [] last = t ≡ last
IsForward t (signal now s ∷ cs) last = (t ≤ now) × IsForward now cs last
IsForward t (look now ∷ cs) last = (t ≤ now) × IsForward now cs last
IsForward t (gauge now ∷ cs) last = (t ≤ now) × IsForward now cs last
IsForward t (request c ∷ cs) last = IsForward t cs last

-- The manager keeps, of all samples so far, those in the window at its last time.
record Inv (p : OverloadPolicy) (hooks : BrownoutHookRegistry) (all : List SignalSample) (t : ℕ)
    (m : OverloadManager) : Type 0 where
  same_policy : m.policy ≡ p
  same_hooks : m.hooks ≡ hooks
  ascending : Ascending all
  past : All (λ (x : SignalSample). x.observed_at ≤ t) all
  kept : m.samples ≡ recent p t all

abbrev sample : ℕ → OverloadSignal → SignalSample
sample now s = record { observed_at = now; signal = s }

Ascending-snoc :
    (all : List SignalSample) (x : SignalSample)
    → Ascending all
    → All (λ (y : SignalSample). y.observed_at ≤ x.observed_at) all
    → Ascending (all ++ x ∷ [])
Ascending-snoc [] x a h = (tt, tt)
Ascending-snoc (y ∷ all) x a h =
    (All-append _ all (x ∷ []) a.0 (h.0, tt), Ascending-snoc all x a.1 h.1)

past_later :
    (t now : ℕ) (all : List SignalSample)
    → t ≤ now
    → All (λ (x : SignalSample). x.observed_at ≤ t) all
    → All (λ (x : SignalSample). x.observed_at ≤ now) all
past_later t now [] h a = tt
past_later t now (x ∷ all) h a = (omega (arith, a.0), past_later t now all h a.1)

-- Eviction at a later time, of what the manager keeps and new samples.
evicted :
    (p : OverloadPolicy) (t now : ℕ) (all new : List SignalSample)
    → t ≤ now
    → Ascending (recent p t all ++ new)
    → evict_old_samples p now (recent p t all ++ new) ≡ recent p now (all ++ new)
evicted p t now all new h a =
    evict-filter p now (recent p t all ++ new) a
    ∙ filter-append (is_recent p now) (recent p t all) new
    ∙ ap (λ xs. xs ++ recent p now new) (recent_twice p t now all h)
    ∙ sym (filter-append (is_recent p now) all new)

observe_parts :
    (m : OverloadManager) (now : ℕ) (s : OverloadSignal)
    → let q = (record_signal m now s).0 in
      (q.policy ≡ m.policy)
      × (q.hooks ≡ m.hooks)
      × (q.samples ≡ evict_old_samples m.policy now (m.samples ++ sample now s ∷ []))
unfolding record_signal observe apply_brownout
observe_parts m now s = (ground arith, ground arith, ground arith)

same_state_iff : (a b : OverloadState) → same_state a b ≡ true → a ≡ b
same_state_iff a b h = ground arith

classified :
    (m : OverloadManager) (now : ℕ) (s : OverloadSignal)
    → let q = observe m now s in
      (q.state ≡ classify_state m.policy (sum_counts (aggregate_signal_counts q.samples)))
      × (q.hooks ≡ m.hooks)
unfolding observe
classified m now s =
    let next = classify_state m.policy (
      sum_counts (
        aggregate_signal_counts
          (evict_old_samples m.policy now (m.samples ++ sample now s ∷ [])))) in
    (ground (arith, same_state_iff next m.state), ground arith)

browned :
    (m : OverloadManager)
    → let q = apply_brownout m in
      (q.state ≡ m.state)
      × (q.samples ≡ m.samples)
      × (q.disabled_features ≡ disabled_features_for m.hooks m.state)
unfolding apply_brownout
browned m =
    let disabled = disabled_features_for m.hooks m.state in
    (
      ground arith,
      ground arith,
      ground (arith, same_iff {A = NameSet} disabled m.disabled_features),
    )

-- The classification by the samples left, and the features that it turns off.
observe_state :
    (m : OverloadManager) (now : ℕ) (s : OverloadSignal)
    → let q = (record_signal m now s).0 in
      (q.state ≡ classify_state m.policy (sum_counts (aggregate_signal_counts q.samples)))
      × (q.disabled_features ≡ disabled_features_for m.hooks q.state)
unfolding record_signal
observe_state m now s =
    let q = observe m now s in
    let (state, hooks) = classified m now s in
    let (kept, samples, disabled) = browned q in
    (ground (arith, state, kept, samples), ground (arith, hooks, kept, disabled))

reported :
    (m : OverloadManager) (now : ℕ) (s : OverloadSignal)
    → let (q, report) = record_signal m now s in
      report.active_signal_count ≡ sum_counts (aggregate_signal_counts q.samples)
unfolding record_signal snapshot_of
reported m now s = refl

signal-Inv :
    (p : OverloadPolicy) (hooks : BrownoutHookRegistry) (all : List SignalSample) (t now : ℕ)
    (m : OverloadManager) (s : OverloadSignal)
    → t ≤ now
    → Inv p hooks all t m
    → Inv p hooks (all ++ sample now s ∷ []) now (record_signal m now s).0
signal-Inv p hooks all t now m s h v =
    let (pol, hook, samples) = observe_parts m now s in
    let later = past_later t now all h v.past in
    let up =
      Ascending-snoc (recent p t all) (sample now s) (recent-Ascending p t all v.ascending)
        (All-filter _ (is_recent p t) all later) in
    record {
      same_policy = pol ∙ v.same_policy;
      same_hooks = hook ∙ v.same_hooks;
      ascending = Ascending-snoc all (sample now s) v.ascending later;
      past = All-append _ all (sample now s ∷ []) later (omega arith, tt);
      kept =
          ground
            (arith, samples, v.same_policy, v.kept, evicted p t now all (sample now s ∷ []) h up);
    }

shed_or_allow : (a : SheddingAction) → (a ≡ allow) ⊎ (a ≡ shed)
shed_or_allow allow = inl refl
shed_or_allow shed = inr refl

-- Eviction alone.
look-Inv :
    (p : OverloadPolicy) (hooks : BrownoutHookRegistry) (all : List SignalSample) (t now : ℕ)
    (m : OverloadManager)
    → t ≤ now
    → Inv p hooks all t m
    → Inv p hooks all now (record m { samples = evict_old_samples m.policy now m.samples })
look-Inv p hooks all t now m h v = record {
  same_policy = v.same_policy;
  same_hooks = v.same_hooks;
  ascending = v.ascending;
  past = past_later t now all h v.past;
  kept =
      ap (λ q. evict_old_samples q now m.samples) v.same_policy
      ∙ ap (evict_old_samples p now) v.kept
      ∙ evict-filter p now (recent p t all) (recent-Ascending p t all v.ascending)
      ∙ recent_twice p t now all h;
}

request-Inv :
    (p : OverloadPolicy) (hooks : BrownoutHookRegistry) (all : List SignalSample) (t : ℕ)
    (m : OverloadManager) (c : TrafficClass)
    → Inv p hooks all t m
    → Inv p hooks all t (decide (λ n. n) m c).0
unfolding decide count_shed
request-Inv p hooks all t m c v = elim (shed_or_allow (action_in m.state c)) [
  | inl e ↦ rw (e, decide) v
  | inr e ↦
      rw (e, decide)
        (record {
          same_policy = v.same_policy;
          same_hooks = v.same_hooks;
          ascending = v.ascending;
          past = v.past;
          kept = v.kept;
        })
]

run-Inv :
    (p : OverloadPolicy) (hooks : BrownoutHookRegistry) (all : List SignalSample) (t last : ℕ)
    (m : OverloadManager) (cs : List Call)
    → IsForward t cs last
    → Inv p hooks all t m
    → Inv p hooks (all ++ seen cs) last (run m cs)
unfolding run step snapshot metrics
run-Inv p hooks all t last m [] f v = rw (append-nil all, ← f) v
run-Inv p hooks all t last m (signal now s ∷ cs) f v =
    rw (← append_assoc all (sample now s ∷ []) (seen cs)) (
      run-Inv p hooks (all ++ sample now s ∷ []) now last (record_signal m now s).0 cs f.1
        (signal-Inv p hooks all t now m s f.0 v))
run-Inv p hooks all t last m (look now ∷ cs) f v =
    run-Inv p hooks all now last _ cs f.1 (look-Inv p hooks all t now m f.0 v)
run-Inv p hooks all t last m (gauge now ∷ cs) f v =
    run-Inv p hooks all now last _ cs f.1 (look-Inv p hooks all t now m f.0 v)
run-Inv p hooks all t last m (request c ∷ cs) f v =
    run-Inv p hooks all t last _ cs f (request-Inv p hooks all t m c v)

new-Inv :
    (p : OverloadPolicy) (hooks : BrownoutHookRegistry) (m : OverloadManager)
    → new p hooks ≡ ok m
    → Inv p hooks [] 0 m
unfolding new
new-Inv p hooks m e = record {
  same_policy = ground (arith, e);
  same_hooks = ground (arith, e);
  ascending = tt;
  past = tt;
  kept = ground (arith, e);
}

-- After any history of a new manager with a clock that does not go back, a signal leaves exactly the
-- samples of the whole history that are within the window, the state that the policy gives to the
-- number of signals in them, and the features turned off that this state turns off; and it reports
-- that number. The number is in the range of u64.
pub state_of_window :
    (p : OverloadPolicy) (hooks : BrownoutHookRegistry) (m : OverloadManager) (cs : List Call)
    (last now : ℕ) (s : OverloadSignal)
    → new p hooks ≡ ok m
    → IsForward 0 cs last
    → last ≤ now
    → let window = recent p now (seen cs ++ record { observed_at = now; signal = s } ∷ []) in
      active window ≤ u64_max
      → let (q, report) = record_signal (run m cs) now s in
        (q.samples ≡ window)
        × (q.state ≡ classify_state p (active window))
        × (q.disabled_features ≡ disabled_features_for hooks q.state)
        × (report.active_signal_count ≡ active window)
state_of_window p hooks m cs last now s e f h fits =
    let v = run-Inv p hooks [] 0 last m cs f (new-Inv p hooks m e) in
    let w = signal-Inv p hooks (seen cs) last now (run m cs) s h v in
    let (state, disabled) = observe_state (run m cs) now s in
    let sum = sum_counts-aggregate _ fits in
    (
      w.kept,
      ground (arith, state, v.same_policy, w.kept, sum),
      disabled
          ∙ ap (λ k. disabled_features_for k (record_signal (run m cs) now s).0.state) v.same_hooks,
      ground (arith, reported (run m cs) now s, w.kept, sum),
    )
