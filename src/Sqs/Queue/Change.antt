-- ===== src/Sqs/Queue/Change.antt =====
-- `delete_message` and `change_visibility`, which search for a receipt handle.
use mathlib.Core.Path.{ap₂}
use openstack.Prelude.{
  ℕ, ◌+◌, ◌≡◌, ◌≢◌, refl, ap, String, Bool, true, false, List, [], ◌∷◌, map, inl, inr, Bool-cases,
  All, IsDistinct, arith, not, any, retain, ◌==◌, eq_iff, if◌then◌else◌, none, some, eqb,
}
use openstack.Sqs.Message.{SqsMessage, seconds}
use openstack.Sqs.Queue.{SqsQueue, delete_from, delete_message, change_in, change_visibility}
use openstack.Sqs.Queue.Handles.{handles}

-- Some message has the handle.
abbrev pub has_handle : String → List SqsMessage → Bool
has_handle h ms = any (λ m. m.receipt_handle == h) ms

-- A message without the handle.
abbrev pub lacks : String → SqsMessage → Bool
lacks h m = not (m.receipt_handle == h)

-- The first message behind which no other has its handle.
retain-lacks :
    (h : String) (ms : List SqsMessage) → All (λ s. h ≢ s) (handles ms) → retain (lacks h) ms ≡ ms
retain-lacks h [] a = refl
retain-lacks h (m ∷ ms) (n, a) = ground (arith, eq_iff m.receipt_handle h, retain-lacks h ms a)

delete_from-taken :
    (h : String) (m : SqsMessage) (ms : List SqsMessage)
    → (m.receipt_handle == h) ≡ true
    → delete_from h (m ∷ ms) ≡ (ms, true)
unfolding delete_from
delete_from-taken h m ms e = rw e

delete_from-kept :
    (h : String) (m : SqsMessage) (ms : List SqsMessage)
    → (m.receipt_handle == h) ≡ false
    → delete_from h (m ∷ ms) ≡ (m ∷ (delete_from h ms).0, (delete_from h ms).1)
unfolding delete_from
delete_from-kept h m ms e = rw e

pub delete_from-eq-retain :
    (h : String) (ms : List SqsMessage)
    → IsDistinct (handles ms)
    → delete_from h ms ≡ (retain (lacks h) ms, has_handle h ms)
delete_from-eq-retain h [] d = unfold delete_from in refl
delete_from-eq-retain h (m ∷ ms) (n, d) = elim (Bool-cases (m.receipt_handle == h)) [
  | inl same ↦
      let e : m.receipt_handle ≡ h = (eq_iff _ _).0 same in
      rw (delete_from-taken h m ms same, same, retain-lacks h ms (rw e at n))
  | inr other ↦ rw (delete_from-kept h m ms other, other, delete_from-eq-retain h ms d)
]

-- Where no two messages share a handle, a delete removes exactly the message with the handle, leaves
-- all others in their order, and reports whether there was one.
pub delete_message-eq-retain :
    (h : String) (q : SqsQueue)
    → IsDistinct (handles q.messages)
    → delete_message h q
      ≡ (record q { messages = retain (lacks h) q.messages }, has_handle h q.messages)
unfolding delete_message
delete_message-eq-retain h q d =
    ap (λ r. (record q { messages = r.0 }, r.1)) (delete_from-eq-retain h q.messages d)

-- What a change of the visibility makes of a message.
abbrev pub changed : String → ℕ → ℕ → SqsMessage → SqsMessage
changed h vt now m =
    if m.receipt_handle == h
    then record m { visible_after = if eqb vt 0 then none else some (now + seconds vt) }
    else m

map-changed :
    (h : String) (vt now : ℕ) (ms : List SqsMessage)
    → All (λ s. h ≢ s) (handles ms)
    → map (changed h vt now) ms ≡ ms
map-changed h vt now [] a = refl
map-changed h vt now (m ∷ ms) (n, a) =
    ground (arith, eq_iff m.receipt_handle h, map-changed h vt now ms a)

change_in-taken :
    (h : String) (vt now : ℕ) (m : SqsMessage) (ms : List SqsMessage)
    → (m.receipt_handle == h) ≡ true
    → change_in h vt now (m ∷ ms) ≡ (changed h vt now m ∷ ms, true)
unfolding change_in
change_in-taken h vt now m ms e = rw e

change_in-kept :
    (h : String) (vt now : ℕ) (m : SqsMessage) (ms : List SqsMessage)
    → (m.receipt_handle == h) ≡ false
    → change_in h vt now (m ∷ ms) ≡ (m ∷ (change_in h vt now ms).0, (change_in h vt now ms).1)
unfolding change_in
change_in-kept h vt now m ms e = rw e

change_in-eq-map :
    (h : String) (vt now : ℕ) (ms : List SqsMessage)
    → IsDistinct (handles ms)
    → change_in h vt now ms ≡ (map (changed h vt now) ms, has_handle h ms)
change_in-eq-map h vt now [] d = unfold change_in in refl
change_in-eq-map h vt now (m ∷ ms) (n, d) = elim (Bool-cases (m.receipt_handle == h)) [
  | inl same ↦
      let e : m.receipt_handle ≡ h = (eq_iff _ _).0 same in
      rw (change_in-taken h vt now m ms same, same, map-changed h vt now ms (rw e at n))
  | inr other ↦ rw (change_in-kept h vt now m ms other, other, change_in-eq-map h vt now ms d)
]

-- Where no two messages share a handle, a change of the visibility rewrites the time of exactly the
-- message with the handle (`none` for a timeout of 0), and reports whether there was one.
pub change_visibility-eq-map :
    (h : String) (vt now : ℕ) (q : SqsQueue)
    → IsDistinct (handles q.messages)
    → change_visibility h vt now q
      ≡ (record q { messages = map (changed h vt now) q.messages }, has_handle h q.messages)
unfolding change_visibility
change_visibility-eq-map h vt now q d =
    ap (λ r. (record q { messages = r.0 }, r.1)) (change_in-eq-map h vt now q.messages d)

-- The change leaves every other field alone.
pub map-map-changed {ℓ} :
    {B : Type ℓ} (f : SqsMessage → B) (h : String) (vt now : ℕ) (ms : List SqsMessage)
    → ((m : SqsMessage) → f (changed h vt now m) ≡ f m)
    → map f (map (changed h vt now) ms) ≡ map f ms
map-map-changed f h vt now [] same = refl
map-map-changed f h vt now (m ∷ ms) same = ap₂ ◌∷◌ (same m) (map-map-changed f h vt now ms same)
