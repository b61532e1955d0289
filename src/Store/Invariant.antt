-- ===== src/Store/Invariant.antt =====
-- Runs of the store's methods, and what holds of the table after any of them.
use m_cloud.Base.{
  ℕ, ◌≤◌, ◌/◌, ◌-◌, ◌≡◌, refl, ◌⊎◌, inl, inr, List, Text, ◌==◌, ==_iff, Option, none, some, arith,
  Option-cases, Bool-cases, some_inj,
}
use m_cloud.Base.Int.{ℤ, ◌≤ℤ◌}
use m_cloud.Dict.{get-empty}
use mathlib.Core.Path.{subst}
use m_cloud.Protocol.{AgentInfo, MachineMetrics}
use m_cloud.Store.Updates.{
  edited, entered, get-update_machine, get-set_offline, get-set_tags, get-set_group,
  get-update_metrics, get-cleanup_stale,
}
use m_cloud.Store.{
  Store, init, online, offline, unix, merge, expire, update_machine, set_offline, get_machine,
  cleanup_stale, set_tags, set_group, update_metrics,
}

-- A call of a method that changes the table.
pub data Op : Type 0 where
  register : AgentInfo → Op
  drop : Text → Op
  tag : Text → List Text → Op
  regroup : Text → Text → Op
  measure : Text → MachineMetrics → Op
  cleanup : ℕ → Op

unfoldable pub apply : ℕ → Op → Store → Store
unfolding update_machine set_offline set_tags set_group update_metrics cleanup_stale
apply now (register info) s = update_machine now info s
apply now (drop id) s = set_offline id s
apply now (tag id tags) s = set_tags id tags s
apply now (regroup id group) s = set_group id group s
apply now (measure id metrics) s = update_metrics now id metrics s
apply now (cleanup threshold) s = cleanup_stale now threshold s

-- A run, each call at its time; the clock does not go back.
pub data Run : ℕ → Store → Type 0 where
  start : Run 0 init
  call : {t : ℕ} {s : Store} (now : ℕ) (op : Op) → t ≤ now → Run t s → Run now (apply now op s)

-- The entry of a machine is filed under its ID, is online or offline, and was seen in the past.
pub record IsSound (now : ℕ) (id : Text) (m : AgentInfo) : Type 0 where
  pub filed : m.agent_id ≡ id
  pub known_status : (m.status ≡ online) ⊎ (m.status ≡ offline)
  pub seen_before : m.last_seen ≤ℤ unix now

pub record IsValid (now : ℕ) (s : Store) : Type 0 where
  pub sound : (id : Text) (m : AgentInfo) → get_machine id s ≡ some m → IsSound now id m

unix_mono : (t now : ℕ) → t ≤ now → t / 1_000_000_000 ≤ now / 1_000_000_000
unix_mono t now h = omega arith

later-IsSound :
    {t now : ℕ} {id : Text} {m : AgentInfo} → t ≤ now → IsSound t id m → IsSound now id m
later-IsSound {t} {now} le h = record {
  filed = h.filed;
  known_status = h.known_status;
  seen_before = omega (arith, h.seen_before, unix_mono t now le);
}

-- A change of one entry keeps what is sound if it keeps the entry sound.
edited-IsSound :
    (now : ℕ) (f : AgentInfo → AgentInfo) (id j : Text) (o : Option AgentInfo) (m' : AgentInfo)
    → ((m : AgentInfo) → IsSound now j m → IsSound now j (f m))
    → ((m : AgentInfo) → o ≡ some m → IsSound now j m)
    → edited f id j o ≡ some m'
    → IsSound now j m'
edited-IsSound now f id j none m' keep old e = absurd (ground arith)
edited-IsSound now f id j (some m) m' keep old e = elim (Bool-cases (id == j)) [
  | inl q ↦ subst (IsSound now j) (some_inj (rw q at e)) (keep m (old m refl))
  | inr q ↦ subst (IsSound now j) (some_inj (rw q at e)) (old m refl)
]

entered-IsSound :
    (now : ℕ) (info : AgentInfo) (j : Text) (o : Option AgentInfo)
    → info.agent_id ≡ j
    → ((m : AgentInfo) → o ≡ some m → IsSound now j m)
    → IsSound now j (entered now info o)
unfolding merge
entered-IsSound now info j none e old = record {
  filed = e;
  known_status = inl refl;
  seen_before = omega arith;
}
entered-IsSound now info j (some m) e old = record {
  filed = (old m refl).filed;
  known_status = inl refl;
  seen_before = omega arith;
}

expire-IsSound :
    (now : ℕ) (cutoff : ℤ) (j : Text) (m : AgentInfo)
    → IsSound now j m
    → IsSound now j (expire cutoff m)
unfolding expire
expire-IsSound now cutoff j m h = record {
  filed = ground arith;
  known_status = ground arith;
  seen_before = ground arith;
}

apply-IsSound :
    (now : ℕ) (op : Op) (s : Store) (j : Text) (m' : AgentInfo)
    → ((m : AgentInfo) → get_machine j s ≡ some m → IsSound now j m)
    → get_machine j (apply now op s) ≡ some m'
    → IsSound now j m'
unfolding apply
apply-IsSound now (register info) s j m' old e = elim (Bool-cases (info.agent_id == j)) [
  | inl q ↦
      subst (IsSound now j) (some_inj (rw (get-update_machine, q) at e))
        (entered-IsSound now info j (get_machine j s) ((==_iff _ _).0 q) old)
  | inr q ↦ old m' (rw (get-update_machine, q) at e)
]
apply-IsSound now (drop id) s j m' old e =
    edited-IsSound now _ id j (get_machine j s) m'
      (λ m h. record { filed = h.filed; known_status = inr refl; seen_before = h.seen_before }) old
      (rw get-set_offline at e)
apply-IsSound now (tag id tags) s j m' old e =
    edited-IsSound now _ id j (get_machine j s) m'
      (λ m h. record {
        filed = h.filed;
        known_status = h.known_status;
        seen_before = h.seen_before;
      })
      old (rw get-set_tags at e)
apply-IsSound now (regroup id group) s j m' old e =
    edited-IsSound now _ id j (get_machine j s) m'
      (λ m h. record {
        filed = h.filed;
        known_status = h.known_status;
        seen_before = h.seen_before;
      })
      old (rw get-set_group at e)
apply-IsSound now (measure id x) s j m' old e =
    edited-IsSound now _ id j (get_machine j s) m'
      (λ m h. record { filed = h.filed; known_status = inl refl; seen_before = omega arith }) old
      (rw get-update_metrics at e)
apply-IsSound now (cleanup threshold) s j m' old e = elim (Option-cases (get_machine j s)) [
  | inl q ↦ absurd (cc (rw (get-cleanup_stale, q) at e))
  | inr (m, q) ↦
      subst (IsSound now j) (some_inj (rw (get-cleanup_stale, q) at e))
        (expire-IsSound now (unix (now - threshold)) j m (old m q))
]

-- After any run of the store's methods on a fresh store, with a clock that does not go back, every
-- entry is filed under its machine's ID, its status is "online" or "offline", and its machine was
-- last seen at or before the present second.
pub Run-IsValid : {now : ℕ} {s : Store} → Run now s → IsValid now s
unfolding get_machine
Run-IsValid start = record { sound = λ id m e. absurd (cc (get-empty {V = AgentInfo} id)) }
Run-IsValid (call {t} {s} now op le r) = record {
  sound = λ id m e.
      apply-IsSound now op s id m (λ m' e'. later-IsSound le ((Run-IsValid r).sound id m' e')) e;
}
