-- ===== src/Sqs/Queue/Receive.antt =====
-- `receive_messages`: its three paths, the messages that it takes, and what it does to them.
use openstack.Prelude.{
  ℕ, zero, suc, ◌+◌, ◌<◌, ◌≡◌, ◌≢◌, refl, ap, subst, sym, Bool, true, false, Option, List, [], ◌∷◌,
  map, inl, inr, Bool-cases, unwrap_or, take, eqb, ◌||◌, is_nil, All, All-take, All-map, Disjoint,
  arith, if◌then◌else◌,
}
use openstack.Sqs.Ids.{fetch_add}
use openstack.Sqs.Message.{SqsMessage, seconds, is_visible_at, begin_receive}
use openstack.Sqs.Queue.{
  SqsQueue, pass_over, receive_at, receive_first, receive_loop, receive_messages,
}
use openstack.Sqs.Queue.Spec.{visible_indices, visible_indices-ge, visible_indices-hidden, payload}

pub receive_loop-zero :
    (vt now idx c : ℕ) (ms : List SqsMessage)
    → receive_loop 0 vt now idx c ms ≡ record { messages = ms; counter = c; indices = [] }
unfolding receive_loop
receive_loop-zero vt now idx c [] = refl
receive_loop-zero vt now idx c (m ∷ ms) = refl

receive_first-eq-receive_loop :
    (vt now idx c : ℕ) (ms : List SqsMessage)
    → receive_first vt now idx c ms ≡ receive_loop 1 vt now idx c ms
unfolding receive_first receive_loop
receive_first-eq-receive_loop vt now idx c [] = refl
receive_first-eq-receive_loop vt now idx c (m ∷ ms) = ground (
  arith,
  receive_loop-zero vt now (idx + 1) (fetch_add c) ms,
  receive_first-eq-receive_loop vt now (idx + 1) c ms,
)

-- Whatever the number asked for, the three paths of the code are one loop.
pub receive_messages-eq-receive_loop :
    (c n : ℕ) (timeout : Option ℕ) (now : ℕ) (q : SqsQueue)
    → receive_messages c n timeout now q
      ≡ receive_loop n (unwrap_or timeout q.visibility_timeout) now 0 c q.messages
unfolding receive_messages
receive_messages-eq-receive_loop c n timeout now q = one_loop n q.messages
  where
    vt : ℕ
    vt = unwrap_or timeout q.visibility_timeout

    one_loop :
        (n : ℕ) (ms : List SqsMessage)
        → (if eqb n 0 || is_nil ms
            then record { messages = ms; counter = c; indices = [] }
            else if eqb n 1
            then receive_first vt now 0 c ms
            else receive_loop n vt now 0 c ms)
          ≡ receive_loop n vt now 0 c ms
    one_loop zero ms = sym (receive_loop-zero vt now 0 c ms)
    one_loop (suc zero) [] = refl
    one_loop (suc zero) (m ∷ ms) = receive_first-eq-receive_loop vt now 0 c (m ∷ ms)
    one_loop (suc (suc n)) [] = ground arith
    one_loop (suc (suc n)) (m ∷ ms) = ground arith

receive_loop-indices :
    (n vt now idx c : ℕ) (ms : List SqsMessage)
    → (receive_loop n vt now idx c ms).indices ≡ take n (visible_indices now idx ms)
unfolding receive_loop visible_indices
receive_loop-indices zero vt now idx c [] = refl
receive_loop-indices zero vt now idx c (m ∷ ms) = refl
receive_loop-indices (suc n) vt now idx c [] = refl
receive_loop-indices (suc n) vt now idx c (m ∷ ms) = ground (
  arith,
  receive_loop-indices n vt now (idx + 1) (fetch_add c) ms,
  receive_loop-indices (suc n) vt now (idx + 1) c ms,
)

receive_loop-indices-ge :
    (i n vt now idx c : ℕ) (ms : List SqsMessage)
    → i < idx
    → All (λ j. i < j) (receive_loop n vt now idx c ms).indices
receive_loop-indices-ge i n vt now idx c ms h =
    rw receive_loop-indices (All-take _ n _ (visible_indices-ge i now idx ms h))

begin_receive-hides :
    (vt now later c : ℕ) (m : SqsMessage)
    → 0 < vt
    → later < now + seconds vt
    → is_visible_at later (begin_receive vt now c m) ≡ false
unfolding begin_receive is_visible_at
begin_receive-hides vt now later c m p r = ground arith

lt→ne : (i j : ℕ) → i < j → i ≢ j
lt→ne i j h = omega arith

-- One smaller index in front of the second list meets nothing in the first.
Disjoint-if :
    (b : Bool) (i : ℕ) (xs ys : List ℕ)
    → All (λ j. i < j) xs
    → Disjoint xs ys
    → Disjoint xs (if b then i ∷ ys else ys)
Disjoint-if true i [] ys h d = tt
Disjoint-if true i (x ∷ xs) ys (h, hs) (d, ds) = ((omega arith, d), Disjoint-if true i xs ys hs ds)
Disjoint-if false i xs ys h d = d

module _ (n vt now idx c : ℕ) (m : SqsMessage) (ms : List SqsMessage) where
  pub receive_loop-taken :
      is_visible_at now m ≡ true
      → receive_loop (suc n) vt now idx c (m ∷ ms)
        ≡ receive_at idx
            (begin_receive vt now c m)
            (receive_loop n vt now (idx + 1) (fetch_add c) ms)
  unfolding receive_loop
  receive_loop-taken h = rw h

  pub receive_loop-passed :
      is_visible_at now m ≡ false
      → receive_loop (suc n) vt now idx c (m ∷ ms)
        ≡ pass_over m (receive_loop (suc n) vt now (idx + 1) c ms)
  unfolding receive_loop
  receive_loop-passed h = rw h

-- One smaller index in front of the first list meets nothing in the second.
Disjoint-cons :
    (i : ℕ) (xs ys zs : List ℕ)
    → ys ≡ zs
    → All (λ j. i < j) zs
    → Disjoint xs zs
    → Disjoint (i ∷ xs) ys
Disjoint-cons i xs ys zs e h d =
    subst (λ l. Disjoint (i ∷ xs) l) (sym e) (All-map (λ j. i < j) (λ j. i ≢ j) (lt→ne i) zs h, d)

payload-begin_receive :
    (vt now c : ℕ) (m : SqsMessage) → payload (begin_receive vt now c m) ≡ payload m
unfolding begin_receive
payload-begin_receive vt now c m = refl

receive_loop-payload :
    (n vt now idx c : ℕ) (ms : List SqsMessage)
    → map payload (receive_loop n vt now idx c ms).messages ≡ map payload ms
receive_loop-payload zero vt now idx c ms = rw receive_loop-zero
receive_loop-payload (suc n) vt now idx c [] = unfold receive_loop in refl
receive_loop-payload (suc n) vt now idx c (m ∷ ms) = elim (Bool-cases (is_visible_at now m)) [
  | inl seen ↦
      rw (receive_loop-taken n vt now idx c m ms seen, payload-begin_receive vt now c m)
        (ap (λ l. payload m ∷ l) (receive_loop-payload n vt now (idx + 1) (fetch_add c) ms))
  | inr hidden ↦
      rw (receive_loop-passed n vt now idx c m ms hidden)
        (ap (λ l. payload m ∷ l) (receive_loop-payload (suc n) vt now (idx + 1) c ms))
]

Disjoint-visible :
    (later idx : ℕ) (m : SqsMessage) (xs : List ℕ) (ms : List SqsMessage)
    → All (λ j. idx < j) xs
    → Disjoint xs (visible_indices later (idx + 1) ms)
    → Disjoint xs (visible_indices later idx (m ∷ ms))
unfolding visible_indices
Disjoint-visible later idx m xs ms h d = Disjoint-if (is_visible_at later m) idx xs _ h d

-- After a receive at `now`, what it returned stays hidden until the timeout is over.
receive_loop-hides :
    (n vt now later idx c : ℕ) (ms : List SqsMessage)
    → 0 < vt
    → later < now + seconds vt
    → Disjoint
        (receive_loop n vt now idx c ms).indices
        (visible_indices later idx (receive_loop n vt now idx c ms).messages)
receive_loop-hides zero vt now later idx c ms p r = rw receive_loop-zero tt
receive_loop-hides (suc n) vt now later idx c [] p r = unfold receive_loop in tt
receive_loop-hides (suc n) vt now later idx c (m ∷ ms) p r =
    elim (Bool-cases (is_visible_at now m)) [
      | inl seen ↦
          let rest = receive_loop n vt now (idx + 1) (fetch_add c) ms in
          rw (receive_loop-taken n vt now idx c m ms seen) (
            Disjoint-cons idx rest.indices _ _
              (visible_indices-hidden later idx (begin_receive vt now c m) rest.messages
                (begin_receive-hides vt now later c m p r))
              (visible_indices-ge idx later (idx + 1) rest.messages (omega arith))
              (receive_loop-hides n vt now later (idx + 1) (fetch_add c) ms p r))
      | inr hidden ↦
          let rest = receive_loop (suc n) vt now (idx + 1) c ms in
          rw (receive_loop-passed n vt now idx c m ms hidden) (
            Disjoint-visible later idx m rest.indices rest.messages
              (receive_loop-indices-ge idx (suc n) vt now (idx + 1) c ms (omega arith))
              (receive_loop-hides (suc n) vt now later (idx + 1) c ms p r))
    ]

module _ (c n : ℕ) (timeout : Option ℕ) (now : ℕ) (q : SqsQueue) where
  -- A receive returns the positions of the first `n` visible messages, in order, on each of its
  -- three paths.
  pub receive_messages-indices :
      (receive_messages c n timeout now q).indices ≡ take n (visible_indices now 0 q.messages)
  receive_messages-indices =
      rw receive_messages-eq-receive_loop (receive_loop-indices n _ now 0 c q.messages)

  -- A receive keeps the ids, bodies, digests, message attributes, send times and sequence numbers of
  -- all messages, and their order.
  pub receive_messages-payload :
      map payload (receive_messages c n timeout now q).messages ≡ map payload q.messages
  receive_messages-payload =
      rw receive_messages-eq-receive_loop (receive_loop-payload n _ now 0 c q.messages)

Disjoint-take : (n : ℕ) (xs ys : List ℕ) → Disjoint xs ys → Disjoint xs (take n ys)
Disjoint-take n [] ys d = tt
Disjoint-take n (x ∷ xs) ys (d, ds) = (All-take (λ y. x ≢ y) n ys d, Disjoint-take n xs ys ds)

-- Two receives in a row, the second before the visibility timeout of the first is over, return no
-- message twice, whatever the second asks for. The timeout is the one given, or the queue's, and
-- is not 0.
pub receive_messages-exclusive :
    (c n c' k : ℕ) (timeout timeout' : Option ℕ) (now later : ℕ) (q : SqsQueue)
    → 0 < unwrap_or timeout q.visibility_timeout
    → later < now + seconds (unwrap_or timeout q.visibility_timeout)
    → Disjoint
        (receive_messages c n timeout now q).indices
        (receive_messages c' k timeout' later
          (record q { messages = (receive_messages c n timeout now q).messages })).indices
receive_messages-exclusive c n c' k timeout timeout' now later q p r =
    let vt = unwrap_or timeout q.visibility_timeout in
    rw
      (
        receive_messages-indices c' k timeout' later
            (record q { messages = (receive_messages c n timeout now q).messages }),
        receive_messages-eq-receive_loop c n timeout now q,
      )
      (Disjoint-take k (receive_loop n vt now 0 c q.messages).indices _
        (receive_loop-hides n vt now later 0 c q.messages p r))
