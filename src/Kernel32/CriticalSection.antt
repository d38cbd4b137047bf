-- ===== src/Kernel32/CriticalSection.antt =====
-- crates/quantum-kernel32/src/sync.rs: critical sections, with the atomic operations of the threads
-- interleaved. Each atomic load, store, read-modify-write or compare-exchange is one step.
pub mod Local
pub mod Exclusion
pub mod Stuck
use quantum.Prelude.{
  ℕ, zero, suc, ◌+◌, ◌-◌, ◌%◌, ◌^◌, ◌<◌, ◌≡◌, ◌≢◌, Bool, true, false, ◌==◌, leb, if◌then◌else◌,
}

-- Where a thread stands. The number is the count of the section's entries that the thread has
-- completed and not left: at rest between calls; before the load of the owner in
-- `EnterCriticalSection` and `TryEnterCriticalSection`; before the compare-exchange of either;
-- before the `fetch_add` of a re-entry; before the store of the owner; before the `fetch_sub` of
-- `LeaveCriticalSection` (the entry that is left not counted); before its store of 0.
pub data Phase : Type 0 where
  at_rest entering try_entering trying trying_once re_entering acquired releasing leaving :
      ℕ → Phase

-- The two atomics of `GuestCriticalSection`.
pub record Words : Type 0 where
  pub lock_count : ℕ
  pub owner_thread_id : ℕ

-- `InitializeCriticalSection`.
abbrev pub initialized : Words
initialized = record { lock_count = 0; owner_thread_id = 0 }

-- The next atomic operation of the thread `tid`.
unfoldable pub advance : ℕ → Words → Phase → Words × Phase
advance tid w (at_rest d) = (w, at_rest d)
advance tid w (entering d) = (w, if w.owner_thread_id == tid then re_entering d else trying d)
advance tid w (try_entering d) =
    (w, if w.owner_thread_id == tid then re_entering d else trying_once d)
advance tid w (trying d) =
    if w.lock_count == 0 then (record w { lock_count = 1 }, acquired d) else (w, entering d)
advance tid w (trying_once d) =
    if w.lock_count == 0 then (record w { lock_count = 1 }, acquired d) else (w, at_rest d)
advance tid w (re_entering d) =
    (record w { lock_count = (w.lock_count + 1) % 2 ^ 32 }, at_rest (suc d))
advance tid w (acquired d) = (record w { owner_thread_id = tid }, at_rest (suc d))
advance tid w (releasing d) = (
  record w { lock_count = (w.lock_count + 2 ^ 32 - 1) % 2 ^ 32 },
  if leb w.lock_count 1 then leaving d else at_rest d,
)
advance tid w (leaving d) = (record w { owner_thread_id = 0 }, at_rest d)

pub record System : Type 0 where
  pub words : Words
  pub phase : ℕ → Phase

abbrev pub update : (ℕ → Phase) → ℕ → Phase → ℕ → Phase
update f t p u = if u == t then p else f u

abbrev pub move : ℕ → System → Words × Phase → System
move t s (w, p) = record { words = w; phase = update s.phase t p }

-- A step of one thread: an atomic operation of the call that it is in, or the start of a call. A
-- thread leaves only a section that it has entered, and enters fewer than 2^32 times.
-- `GetCurrentThreadId` returns no 0.
pub data Step (s : System) : System → Type 0 where
  runs : (t : ℕ) → t ≢ 0 → Step s (move t s (advance t s.words (s.phase t)))
  enters :
      (t d : ℕ)
      → t ≢ 0
      → s.phase t ≡ at_rest d
      → suc d < 2 ^ 32
      → Step s (move t s (s.words, entering d))
  tries :
      (t d : ℕ)
      → t ≢ 0
      → s.phase t ≡ at_rest d
      → suc d < 2 ^ 32
      → Step s (move t s (s.words, try_entering d))
  leaves :
      (t d : ℕ) → t ≢ 0 → s.phase t ≡ at_rest (suc d) → Step s (move t s (s.words, releasing d))

pub data Reaches : System → Type 0 where
  start : Reaches (record { words = initialized; phase = λ _. at_rest 0 })
  next : {s s' : System} → Reaches s → Step s s' → Reaches s'

-- How many entries a thread holds. The compare-exchange is the moment of the entry, the
-- `fetch_sub` that of leaving.
abbrev pub hold : Phase → ℕ
hold (at_rest d) = d
hold (entering d) = d
hold (try_entering d) = d
hold (trying d) = d
hold (trying_once d) = d
hold (re_entering d) = d
hold (acquired d) = suc d
hold (releasing d) = suc d
hold (leaving d) = d
