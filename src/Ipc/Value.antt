-- ===== src/Ipc/Value.antt =====
-- The values that are sent, as their `Serialize` implementations see them: a sequence of plain
-- numbers and handles. An implementation may fail, and may itself send a message on the way.
use ipc_channel.Base.{ℕ}
use ipc_channel.Errors.{BincodeError}

mutual
  pub data Item (S R M : Type 0) : Type 0 where
    word : ℕ → Item S R M
    sender : S → Item S R M
    receiver : R → Item S R M
    memory : M → Item S R M
    -- A `Serialize` implementation that returns an error.
    fails : BincodeError → Item S R M
    -- One that sends another value, and goes on whatever comes of that.
    sends : Items S R M → Item S R M

  pub data Items (S R M : Type 0) : Type 0 where
    nil : Items S R M
    cons : Item S R M → Items S R M → Items S R M

-- What a `Deserialize` implementation asks for.
pub data Kind : Type 0 where
  a_word a_sender a_receiver a_memory : Kind
