-- ===== src/Sqs/Queue/Handles.antt =====
-- The receipt handles of a queue's messages and the counter that they are drawn from.
use openstack.Prelude.{
  IsDistinct, All-map, ℕ, zero, suc, ◌+◌, ◌≤◌, ◌<◌, ◌≡◌, ◌≢◌, refl, ◌∙◌, sym, String, List, [], ◌∷◌,
  map, inl, inr, Bool-cases, length, All, arith,
}
use openstack.Sqs.Ids.{u64, fetch_add, receipt_handle_of}
use openstack.Sqs.Ids.Unique.{receipt_handle_of-injective}
use openstack.Sqs.Message.{SqsMessage, is_visible_at, begin_receive}
use openstack.Sqs.Queue.{push_back, receive_loop}
use openstack.Sqs.Queue.Receive.{receive_loop-zero, receive_loop-taken, receive_loop-passed}

abbrev pub handles : List SqsMessage → List String
handles ms = map (λ m. m.receipt_handle) ms

-- The handle was made from a value that the counter has left behind.
abbrev pub IsIssued : ℕ → String → Type 0
IsIssued c h = (k : ℕ) × (k < c) × (h ≡ receipt_handle_of k)

pub fetch_add-eq : (c : ℕ) → c + 1 < u64 → fetch_add c ≡ c + 1
unfolding fetch_add
fetch_add-eq c h = omega arith

pub IsIssued-mono : (c d : ℕ) → c ≤ d → (h : String) → IsIssued c h → IsIssued d h
IsIssued-mono c d le h (k, lt, e) = (k, omega arith, e)

-- A value that the counter has not left behind gives a handle that is not yet issued.
pub fresh-ne : (c k : ℕ) (h : String) → c ≤ k → k < u64 → IsIssued c h → h ≢ receipt_handle_of k
fresh-ne c k h le lt (j, before, e) same =
    absurd (omega (arith, receipt_handle_of-injective j k (omega arith) lt (sym e ∙ same)))

begin_receive-handle :
    (vt now c : ℕ) (m : SqsMessage)
    → (begin_receive vt now c m).receipt_handle ≡ receipt_handle_of c
unfolding begin_receive
begin_receive-handle vt now c m = refl

pub receive_loop-counter :
    (n vt now idx c : ℕ) (ms : List SqsMessage)
    → c + length ms < u64
    → (c ≤ (receive_loop n vt now idx c ms).counter)
      × ((receive_loop n vt now idx c ms).counter ≤ c + length ms)
receive_loop-counter zero vt now idx c ms h = rw receive_loop-zero (omega arith)
receive_loop-counter (suc n) vt now idx c [] h = unfold receive_loop in omega arith
receive_loop-counter (suc n) vt now idx c (m ∷ ms) h = elim (Bool-cases (is_visible_at now m)) [
  | inl seen ↦
      rw (receive_loop-taken n vt now idx c m ms seen, fetch_add-eq c (omega arith))
        (omega (arith, receive_loop-counter n vt now (idx + 1) (c + 1) ms (omega arith)))
  | inr hidden ↦
      rw (receive_loop-passed n vt now idx c m ms hidden)
        (omega (arith, receive_loop-counter (suc n) vt now (idx + 1) c ms (omega arith)))
]

-- What holds of the old handles and of the values drawn holds of all handles afterwards.
receive_loop-All :
    (P : String → Type 0) (n vt now idx c : ℕ) (ms : List SqsMessage)
    → c + length ms < u64
    → All P (handles ms)
    → ((k : ℕ) → c ≤ k → k < (receive_loop n vt now idx c ms).counter → P (receipt_handle_of k))
    → All P (handles (receive_loop n vt now idx c ms).messages)
receive_loop-All P zero vt now idx c ms h old new = rw receive_loop-zero old
receive_loop-All P (suc n) vt now idx c [] h old new = unfold receive_loop in tt
receive_loop-All P (suc n) vt now idx c (m ∷ ms) h (o, old) new =
    elim (Bool-cases (is_visible_at now m)) [
      | inl seen ↦
          let e = receive_loop-taken n vt now idx c m ms seen in
          let f = fetch_add-eq c (omega arith) in
          let new' = rw (e, f) at new in
          let grows = receive_loop-counter n vt now (idx + 1) (c + 1) ms (omega arith) in
          rw (e, f, begin_receive-handle vt now c m)
            (
              new' c (omega arith) (omega arith),
              receive_loop-All P n vt now (idx + 1) (c + 1) ms (omega arith) old
                  (λ k le lt. new' k (omega arith) lt),
            )
      | inr hidden ↦
          let e = receive_loop-passed n vt now idx c m ms hidden in
          let new' = rw e at new in
          rw e (o, receive_loop-All P (suc n) vt now (idx + 1) c ms (omega arith) old new')
    ]

All-IsIssued-ne :
    (c k : ℕ) (hs : List String)
    → c ≤ k
    → k < u64
    → All (IsIssued c) hs
    → All (λ h. receipt_handle_of k ≢ h) hs
All-IsIssued-ne c k hs le lt =
    All-map (IsIssued c) (λ h. receipt_handle_of k ≢ h)
      (λ h i same. fresh-ne c k h le lt i (sym same)) hs

receive_loop-IsDistinct :
    (n vt now idx c : ℕ) (ms : List SqsMessage)
    → c + length ms < u64
    → All (IsIssued c) (handles ms)
    → IsDistinct (handles ms)
    → IsDistinct (handles (receive_loop n vt now idx c ms).messages)
receive_loop-IsDistinct zero vt now idx c ms h i d = rw receive_loop-zero d
receive_loop-IsDistinct (suc n) vt now idx c [] h i d = unfold receive_loop in tt
receive_loop-IsDistinct (suc n) vt now idx c (m ∷ ms) h (i, is) (d, ds) =
    elim (Bool-cases (is_visible_at now m)) [
      | inl seen ↦
          let grows = receive_loop-counter n vt now (idx + 1) (c + 1) ms (omega arith) in
          let is' =
            All-map (IsIssued c) (IsIssued (c + 1)) (IsIssued-mono c (c + 1) (omega arith)) _ is in
          rw
            (
              receive_loop-taken n vt now idx c m ms seen,
              fetch_add-eq c (omega arith),
              begin_receive-handle vt now c m,
            )
            (
              receive_loop-All (λ s. receipt_handle_of c ≢ s) n vt now (idx + 1) (c + 1) ms
                  (omega arith) (All-IsIssued-ne c c (handles ms) (omega arith) (omega arith) is)
                  (λ k le lt same. absurd (
                    omega
                      (arith, receipt_handle_of-injective c k (omega arith) (omega arith) same))),
              receive_loop-IsDistinct n vt now (idx + 1) (c + 1) ms (omega arith) is' ds,
            )
      | inr hidden ↦
          let grows = receive_loop-counter (suc n) vt now (idx + 1) c ms (omega arith) in
          rw (receive_loop-passed n vt now idx c m ms hidden) (
            receive_loop-All (λ s. m.receipt_handle ≢ s) (suc n) vt now (idx + 1) c ms (omega arith)
                d (λ k le lt. fresh-ne c k m.receipt_handle le (omega arith) i),
            receive_loop-IsDistinct (suc n) vt now (idx + 1) c ms (omega arith) is ds,
          )
    ]

-- All handles are issued and no two are equal.
pub record IsHandled (c : ℕ) (ms : List SqsMessage) : Type 0 where
  pub issued : All (IsIssued c) (handles ms)
  pub distinct : IsDistinct (handles ms)

pub receive_loop-IsHandled :
    (n vt now idx c : ℕ) (ms : List SqsMessage)
    → c + length ms < u64
    → IsHandled c ms
    → IsHandled (receive_loop n vt now idx c ms).counter (receive_loop n vt now idx c ms).messages
receive_loop-IsHandled n vt now idx c ms room h =
    let r = receive_loop n vt now idx c ms in
    let grows = receive_loop-counter n vt now idx c ms room in
    record {
      issued =
          receive_loop-All (IsIssued r.counter) n vt now idx c ms room
            (All-map (IsIssued c) (IsIssued r.counter) (IsIssued-mono c r.counter grows.0) _
              h.issued)
            (λ k le lt. (k, lt, refl));
      distinct = receive_loop-IsDistinct n vt now idx c ms room h.issued h.distinct;
    }

pub push_back-All :
    (P : String → Type 0) (ms : List SqsMessage) (m : SqsMessage)
    → All P (handles ms)
    → P m.receipt_handle
    → All P (handles (push_back ms m))
unfolding push_back
push_back-All P [] m h p = (p, tt)
push_back-All P (x ∷ xs) m (h, hs) p = (h, push_back-All P xs m hs p)

push_back-IsDistinct :
    (ms : List SqsMessage) (m : SqsMessage)
    → IsDistinct (handles ms)
    → All (λ h. h ≢ m.receipt_handle) (handles ms)
    → IsDistinct (handles (push_back ms m))
unfolding push_back
push_back-IsDistinct [] m d n = (tt, tt)
push_back-IsDistinct (x ∷ xs) m (d, ds) (n, ns) =
    (push_back-All (λ h. x.receipt_handle ≢ h) xs m d n, push_back-IsDistinct xs m ds ns)

-- A message whose handle is made from `k` joins messages whose handles were made before.
pub push_back-IsHandled :
    (c k d : ℕ) (ms : List SqsMessage) (m : SqsMessage)
    → c ≤ k
    → k < d
    → k < u64
    → m.receipt_handle ≡ receipt_handle_of k
    → IsHandled c ms
    → IsHandled d (push_back ms m)
push_back-IsHandled c k d ms m le lt room e h = record {
  issued =
      push_back-All (IsIssued d) ms m
        (All-map (IsIssued c) (IsIssued d) (IsIssued-mono c d (omega arith)) _ h.issued) (k, lt, e);
  distinct = push_back-IsDistinct ms m h.distinct (
      rw e (
        All-map (IsIssued c) (λ s. s ≢ receipt_handle_of k) (λ s i. fresh-ne c k s le room i) _
          h.issued));
}
