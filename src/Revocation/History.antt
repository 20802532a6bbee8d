-- ===== src/Revocation/History.antt =====
-- The denylist against its history: a run of operations, and what the last of them that concerns a key
-- says of it.
use jwtmint.Prelude.{
  ◌↔◌, sym, String, ◌≡◌, refl, ◌∙◌, Bool, true, false, Option, none, some, List, [], ◌∷◌, ◌==◌,
  ◌≤ℤ◌, not, ◌&&◌, if◌then◌else◌, arith,
}
use jwtmint.Text.{is_blank}
use jwtmint.Dict.{Dict, lookup}
use jwtmint.Dict.Laws.{Distinct, insert-Distinct, delete-Distinct}
use jwtmint.Time.{Time, zero_time}
use jwtmint.Revocation.{
  MemRevoker, revoke_until, revoke, unrevoke, entry_revoked, cleanup, key_revoked,
}
use jwtmint.Revocation.Laws.{
  Stands, entry_revoked_iff, sweep-Distinct, key_revoked-revoke_until, key_revoked-unrevoke,
  key_revoked-cleanup,
}

-- The calls that change a MemRevoker, Cleanup with the wall clock's reading.
pub data Op : Type 0 where
  revoke_until_op : String → Time → Op
  revoke_op : String → Op
  unrevoke_op : String → Op
  cleanup_op : Time → Op

-- What the history, its latest call first, says of a key: until when it is revoked.
pub last_word : List Op → String → Option Time
last_word [] key = none
last_word (revoke_until_op k until ∷ ops) key =
    if not (is_blank k) && (k == key) then some until else last_word ops key
last_word (revoke_op k ∷ ops) key =
    if not (is_blank k) && (k == key) then some zero_time else last_word ops key
last_word (unrevoke_op k ∷ ops) key = if k == key then none else last_word ops key
last_word (cleanup_op wall ∷ ops) key = last_word ops key

module _ {F : Type 0} where
  abbrev pub step : Op → MemRevoker F → MemRevoker F
  step (revoke_until_op k until) m = revoke_until k until m
  step (revoke_op k) m = revoke k m
  step (unrevoke_op k) m = unrevoke k m
  step (cleanup_op wall) m = (cleanup wall m).0

  -- The state after a history, its latest call first.
  unfoldable pub run : List Op → MemRevoker F → MemRevoker F
  run [] m = m
  run (op ∷ ops) m = step op (run ops m)

-- A branch on the entry is a branch on the answer.
entry_revoked-if :
    (now : Time) (o rest : Option Time) {answer : Bool} (b : Bool)
    → answer ≡ entry_revoked now rest
    → (if b then entry_revoked now o else answer) ≡ entry_revoked now (if b then o else rest)
entry_revoked-if now o rest true h = refl
entry_revoked-if now o rest false h = h

Distinct-empty : {m : Dict Time} → m ≡ [] → Distinct m
Distinct-empty h = rw h tt

-- No cleanup read a later time than `now`.
abbrev pub NotAfter : (Time → Time) → Time → List Op → Type 0
NotAfter clock now [] = Unit
NotAfter clock now (cleanup_op wall ∷ ops) = (clock wall ≤ℤ clock now) × NotAfter clock now ops
NotAfter clock now (_ ∷ ops) = NotAfter clock now ops

module _ {F : Type 0} where
  step-Distinct : (op : Op) (m : MemRevoker F) → Distinct m.revoked → Distinct (step op m).revoked
  unfolding revoke_until revoke unrevoke cleanup
  step-Distinct (revoke_until_op k until) m d = ground (arith, insert-Distinct k until m.revoked)
  step-Distinct (revoke_op k) m d = ground (arith, insert-Distinct k zero_time m.revoked)
  step-Distinct (unrevoke_op k) m d = delete-Distinct k m.revoked d
  step-Distinct (cleanup_op wall) m d = sweep-Distinct (m.clock wall) m.revoked d

  step-clock : (op : Op) (m : MemRevoker F) → (step op m).clock ≡ m.clock
  unfolding revoke_until revoke unrevoke cleanup
  step-clock (revoke_until_op k until) m = ground arith
  step-clock (revoke_op k) m = ground arith
  step-clock (unrevoke_op k) m = refl
  step-clock (cleanup_op wall) m = refl

  pub run-Distinct :
      (ops : List Op) (m : MemRevoker F) → Distinct m.revoked → Distinct (run ops m).revoked
  unfolding run
  run-Distinct [] m d = d
  run-Distinct (op ∷ ops) m d = step-Distinct op (run ops m) (run-Distinct ops m d)

  run-clock : (ops : List Op) (m : MemRevoker F) → (run ops m).clock ≡ m.clock
  unfolding run
  run-clock [] m = refl
  run-clock (op ∷ ops) m = step-clock op (run ops m) ∙ run-clock ops m

  -- Revoked answers by the entry that the last call wrote.
  said :
      (m : MemRevoker F) (now : Time) (key : String) (ops : List Op)
      → m.revoked ≡ []
      → NotAfter m.clock now ops
      → key_revoked (run ops m) now key ≡ entry_revoked (m.clock now) (last_word ops key)
  unfolding run last_word revoke
  said m now key [] e h = unfold key_revoked lookup in rw e refl
  said m now key (revoke_until_op k until ∷ ops) e h =
      rw (key_revoked-revoke_until (run ops m) now key k until, run-clock ops m)
        (entry_revoked-if (m.clock now) (some until) (last_word ops key)
          (not (is_blank k) && (k == key)) (said m now key ops e h))
  said m now key (revoke_op k ∷ ops) e h =
      rw (key_revoked-revoke_until (run ops m) now key k zero_time) (
        entry_revoked-if (m.clock now) (some zero_time) (last_word ops key)
          (not (is_blank k) && (k == key)) (said m now key ops e h))
  said m now key (unrevoke_op k ∷ ops) e h =
      rw (key_revoked-unrevoke (run ops m) now key k) (
        entry_revoked-if (m.clock now) none (last_word ops key) (k == key) (said m now key ops e h))
  said m now key (cleanup_op wall ∷ ops) e (before_now, h) =
      key_revoked-cleanup (run ops m) now key wall (run-Distinct ops m (Distinct-empty e))
        (rw (run-clock ops m) before_now)
      ∙ said m now key ops e h

  -- After any sequence of calls on an empty denylist, Revoked reports a key exactly if the last
  -- call that concerns the key is a Revoke, or a RevokeUntil with the zero time or one behind the
  -- clock's reading, provided that no Cleanup read a later time than Revoked does.
  pub key_revoked-run :
      (m : MemRevoker F) (now : Time) (key : String) (ops : List Op)
      → m.revoked ≡ []
      → NotAfter m.clock now ops
      → (key_revoked (run ops m) now key ≡ true) ↔ Stands (m.clock now) (last_word ops key)
  key_revoked-run m now key ops e h =
      let answer = said m now key ops e h in
      let stands = entry_revoked_iff (m.clock now) (last_word ops key) in
      (λ t. stands.0 (sym answer ∙ t), λ t. answer ∙ stands.1 t)
