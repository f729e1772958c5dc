-- ===== src/Queues.antt =====
-- The bounded queues: DeviceStore.publish_reading and publish_event of service/models/device.py,
-- and WebSocketClient of service/api/websocket.py. A queue is the list of its items, oldest first.
pub mod Newest
use igrill_remote_server.Prelude.{
  ℕ, Bool, true, false, Option, none, some, List, [], ◌∷◌, ◌++◌, leb, length, drop, if◌then◌else◌,
}

module _ {M : Type 0} where
  -- `full()`, then `get_nowait()`, then `put_nowait(message)`
  unfoldable pub offer : ℕ → M → List M → List M
  offer maxsize message queue =
      if leb maxsize (length queue) then drop 1 queue ++ message ∷ [] else queue ++ message ∷ []

  unfoldable pub publish_reading : M → List M → List M
  publish_reading = offer 1000

  unfoldable pub publish_event : M → List M → List M
  publish_event = offer 1000

pub record Client (M : Type 0) : Type 0 where
  pub reading_queue : List M
  pub event_queue : List M

module _ {M : Type 0} where
  unfoldable pub enqueue : M → Bool → Client M → Client M
  enqueue message true c = record c { event_queue = offer 64 message c.event_queue }
  enqueue message false c = record c { reading_queue = offer 1 message c.reading_queue }

  -- What `_sender` takes next: an event, else a reading; `none` where it waits.
  unfoldable pub next_message : Client M → Option M × Client M
  next_message c = elim c.event_queue [
    | m ∷ rest ↦ (some m, record c { event_queue = rest })
    | [] ↦ elim c.reading_queue [
      | m ∷ rest ↦ (some m, record c { reading_queue = rest })
      | [] ↦ (none, c)
    ]
  ]
