-- ===== src/Ipc/Send/Spec.antt =====
-- What is to be sent of a value, read off the value itself.
use ipc_channel.Base.{ℕ, suc, List, [], ◌∷◌}
use ipc_channel.Ipc.Platform.{OsIpcChannel, sender_channel, receiver_channel}
use ipc_channel.Ipc.Value.{
  Item, Items, word, sender, receiver, memory, fails, sends, nil, cons, Kind, a_word, a_sender,
  a_receiver, a_memory,
}

module _ {S R M : Type 0} where
  abbrev mutual
    -- No implementation fails, also not in a message that is sent on the way.
    pub IsSound : Item S R M → Type 0
    IsSound (word n) = Unit {0}
    IsSound (sender s) = Unit {0}
    IsSound (receiver r) = Unit {0}
    IsSound (memory m) = Unit {0}
    IsSound (fails e) = ⊥
    IsSound (sends v) = AllSound v

    pub AllSound : Items S R M → Type 0
    AllSound nil = Unit {0}
    AllSound (cons x xs) = IsSound x × AllSound xs

  -- The handles, and the indices under which they are sent, where `c` channels and `m` regions are in
  -- the tables before. What a nested send sends is not in the outer message.
  abbrev pub channels_of : Items S R M → List (OsIpcChannel S R)
  channels_of nil = []
  channels_of (cons (sender s) xs) = sender_channel s ∷ channels_of xs
  channels_of (cons (receiver r) xs) = receiver_channel r ∷ channels_of xs
  channels_of (cons _ xs) = channels_of xs

  abbrev pub regions_of : Items S R M → List M
  regions_of nil = []
  regions_of (cons (memory m) xs) = m ∷ regions_of xs
  regions_of (cons _ xs) = regions_of xs

  abbrev pub words_of : ℕ → ℕ → Items S R M → List ℕ
  words_of c m nil = []
  words_of c m (cons (word n) xs) = n ∷ words_of c m xs
  words_of c m (cons (sender s) xs) = c ∷ words_of (suc c) m xs
  words_of c m (cons (receiver r) xs) = c ∷ words_of (suc c) m xs
  words_of c m (cons (memory x) xs) = m ∷ words_of c (suc m) xs
  words_of c m (cons _ xs) = words_of c m xs

  -- What is received of a value, and what its `Deserialize` implementation asks for.
  abbrev pub visible : Items S R M → Items S R M
  visible nil = nil
  visible (cons (sends v) xs) = visible xs
  visible (cons x xs) = cons x (visible xs)

  abbrev pub kinds_of : Items S R M → List Kind
  kinds_of nil = []
  kinds_of (cons (word n) xs) = a_word ∷ kinds_of xs
  kinds_of (cons (sender s) xs) = a_sender ∷ kinds_of xs
  kinds_of (cons (receiver r) xs) = a_receiver ∷ kinds_of xs
  kinds_of (cons (memory m) xs) = a_memory ∷ kinds_of xs
  kinds_of (cons _ xs) = kinds_of xs
