-- ===== src/Mpsc.antt =====
-- The bounded channels of tokio (`tokio::sync::mpsc`) between the parts of the daemon, as an interface.
pub mod Bounded
use fcitx5_anytalk.Prelude.{Bool, true, false, ◌≡◌, Option, none, some, List, [], ◌∷◌, ◌++◌}

-- A channel with its operations. `try_send` gives `none` for an error, as when the channel is full or
-- its receiver is gone; `recv` gives `none` where it waits, and `some (none, _)` for the end.
pub record Mpsc (A : Type 0) : Type 1 where
  pub State : Type 0
  pub channel : State
  pub try_send : A → State → Option State
  pub recv : State → Option (Option A × State)
  pub drop_tx : State → State  -- the last sender goes
  pub drop_rx : State → State  -- the receiver goes

-- What its documentation says: messages come in the order in which they were sent, the end comes
-- once no sender is left and all of them have come, and `recv` waits only where there is none.
-- `unread` is what has been sent and has not come.
pub record IsFifo {A : Type 0} (ch : Mpsc A) : Type 0 where
  pub unread : ch.State → List A
  pub is_open : ch.State → Bool
  pub fresh : (unread ch.channel ≡ []) × (is_open ch.channel ≡ true)
  pub sends :
      (a : A) (q q' : ch.State)
      → ch.try_send a q ≡ some q'
      → (unread q' ≡ unread q ++ (a ∷ [])) × (is_open q' ≡ is_open q)
  pub comes :
      (a : A) (q q' : ch.State)
      → ch.recv q ≡ some (some a, q')
      → (unread q ≡ a ∷ unread q') × (is_open q' ≡ is_open q)
  pub ends :
      (q q' : ch.State)
      → ch.recv q ≡ some (none, q')
      → (unread q ≡ []) × (is_open q ≡ false) × (unread q' ≡ []) × (is_open q' ≡ false)
  pub waits : (q : ch.State) → ch.recv q ≡ none → (is_open q ≡ true) × (unread q ≡ [])
  pub closes :
      (q : ch.State) → (unread (ch.drop_tx q) ≡ unread q) × (is_open (ch.drop_tx q) ≡ false)
  pub leaves :
      (q : ch.State) → (unread (ch.drop_rx q) ≡ unread q) × (is_open (ch.drop_rx q) ≡ is_open q)
