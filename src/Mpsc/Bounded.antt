-- ===== src/Mpsc/Bounded.antt =====
-- A channel of tokio as a list: an instance of the interface at which the theorems are applied.
use fcitx5_anytalk.Prelude.{
  ℕ, Bool, true, false, ◌≡◌, refl, none, some, List, [], ◌∷◌, ◌++◌, length, ltb, if◌then◌else◌,
  arith,
}
use fcitx5_anytalk.Mpsc.{Mpsc, IsFifo}

-- The messages that wait, and whether the ends are there.
pub record Line (A : Type 0) : Type 0 where
  pub messages : List A
  pub sender : Bool
  pub receiver : Bool

module _ (A : Type 0) (capacity : ℕ) where
  abbrev pub bounded : Mpsc A
  bounded = record {
    State = Line A;
    channel = record { messages = []; sender = true; receiver = true };
    try_send = λ a q.
        if q.receiver
        then (if ltb (length q.messages) capacity
            then some (record q { messages = q.messages ++ (a ∷ []) })
            else none)
        else none;
    recv = λ q. elim q.messages [
      | [] ↦ if q.sender then none else some (none, q)
      | a ∷ rest ↦ some (some a, record q { messages = rest })
    ];
    drop_tx = λ q. record q { sender = false };
    drop_rx = λ q. record q { receiver = false };
  }

  abbrev pub line : List A → Bool → Bool → Line A
  line messages sender receiver = record {
    messages = messages;
    sender = sender;
    receiver = receiver;
  }

  pub bounded-sends :
      (a : A) (q q' : Line A)
      → bounded.try_send a q ≡ some q'
      → (q'.messages ≡ q.messages ++ (a ∷ [])) × (q'.sender ≡ q.sender)
  bounded-sends a q q' e = ground (arith, e)

  pub bounded-comes :
      (a : A) (messages : List A) (sender receiver : Bool) (q' : Line A)
      → bounded.recv (line messages sender receiver) ≡ some (some a, q')
      → (messages ≡ a ∷ q'.messages) × (q'.sender ≡ sender)
  bounded-comes a [] sender receiver q' e = ground (arith, e)
  bounded-comes a (m ∷ rest) sender receiver q' e = ground (arith, e)

  pub bounded-ends :
      (messages : List A) (sender receiver : Bool) (q' : Line A)
      → bounded.recv (line messages sender receiver) ≡ some (none, q')
      → (messages ≡ []) × (sender ≡ false) × (q'.messages ≡ []) × (q'.sender ≡ false)
  bounded-ends [] sender receiver q' e = ground (arith, e)
  bounded-ends (m ∷ rest) sender receiver q' e = absurd (ground (arith, e))

  pub bounded-waits :
      (messages : List A) (sender receiver : Bool)
      → bounded.recv (line messages sender receiver) ≡ none
      → (sender ≡ true) × (messages ≡ [])
  bounded-waits [] sender receiver e = ground (arith, e)
  bounded-waits (m ∷ rest) sender receiver e = absurd (ground (arith, e))

  abbrev pub bounded-Fifo : IsFifo bounded
  bounded-Fifo = record {
    unread = λ q. q.messages;
    is_open = λ q. q.sender;
    fresh = (refl, refl);
    sends = bounded-sends;
    comes = λ a q q' e. bounded-comes a q.messages q.sender q.receiver q' e;
    ends = λ q q' e. bounded-ends q.messages q.sender q.receiver q' e;
    waits = λ q e. bounded-waits q.messages q.sender q.receiver e;
    closes = λ q. (refl, refl);
    leaves = λ q. (refl, refl);
  }
