-- ===== src/Windows/Send/Plan.antt =====
-- What `send` has put together before it writes: the out-of-band message for the process at the other
-- end, with a handle for each port and each region.
use ipc_channel.Base.{
  ℕ, ◌+◌, ◌≡◌, sym, ap, subst, ◌∙◌, inl, inr, Bool, true, false, not, ◌||◌, Option, none, some,
  List, [], ◌∷◌, ◌++◌, map, map-append, append-nil, append_assoc, arith, if◌then◌else◌, ==_refl,
  Bool-cases, length, length-append, Result, >>=-ok, >>=-each, ok,
}
use ipc_channel.Windows.System.{WinError, System, gives}
use ipc_channel.Windows.Handle.{
  WinHandle, invalid, is_valid, take_handle, Duplicate, dup_handle_to_process,
  move_handle_to_process,
}
use ipc_channel.Windows.Message.{OutOfBandMessage, new_oob, is_empty, is_some, needs_to_be_sent}
use ipc_channel.Windows.SharedMemory.{OsIpcSharedMemory}
use ipc_channel.Windows.Send.{
  OsIpcChannel, SendAnswers, channel, get_pipe_server_process_id,
  get_pipe_server_process_handle_and_pid, push_regions, port_handle, push_ports,
  needs_fragmentation, fragment, prepare,
}

-- A handle and a size for each region, a handle for each port, and the process that they are for.
pub record Plans (a : SendAnswers) (bytes : List ℕ) (ports : List OsIpcChannel)
    (regions : List OsIpcSharedMemory) (big : Bool) (oob : OutOfBandMessage) : Type 0 where
  pub target : needs_to_be_sent oob ≡ true → a.server_process_id ≡ gives oob.target_process_id
  pub handles : length oob.channel_handles ≡ length ports
  pub sizes : map (λ (h, n). n) oob.shmem_handles ≡ map (λ m. m.length) regions
  pub in_band : big ≡ false → oob.big_data_receiver_handle ≡ none
  pub apart : big ≡ true → (h : ℕ) × (oob.big_data_receiver_handle ≡ some (h, length bytes))

-- The process of a pipe is the one that the system names.
server_named :
    (w : System) (a : SendAnswers) (server : WinHandle × ℕ)
    → get_pipe_server_process_handle_and_pid w a ≡ ok server
    → a.server_process_id ≡ gives server.1
unfolding get_pipe_server_process_handle_and_pid get_pipe_server_process_id
server_named w a server e = ground arith

push_regions_lem :
    (w : System) (dup : Duplicate) (server : WinHandle) (regions : List OsIpcSharedMemory)
    (oob oob' : OutOfBandMessage)
    → push_regions w dup server regions oob ≡ ok oob'
    → (oob'.target_process_id ≡ oob.target_process_id)
      × (oob'.channel_handles ≡ oob.channel_handles)
      × (oob'.big_data_receiver_handle ≡ oob.big_data_receiver_handle)
      × (map (λ (h, n). n) oob'.shmem_handles
          ≡ map (λ (h, n). n) oob.shmem_handles ++ map (λ m. m.length) regions)
unfolding push_regions
push_regions_lem w dup server [] oob oob' e =
    (cc e, cc e, cc e, cc (e, append-nil (map (λ (h, n). n) oob.shmem_handles)))
push_regions_lem w dup server (m ∷ regions) oob oob' e =
    let (remote, _, f) = >>=-ok (dup_handle_to_process w dup m.handle server) _ e in
    let oob'' : OutOfBandMessage = record oob {
      shmem_handles = oob.shmem_handles ++ ((remote.h, m.length) ∷ []);
    } in
    let (target, channels, big, sizes) = push_regions_lem w dup server regions oob'' oob' f in
    (
      target,
      channels,
      big,
      sizes
          ∙ ap (λ ns. ns ++ map (λ m. m.length) regions)
              (map-append (λ (h, n). n) oob.shmem_handles ((remote.h, m.length) ∷ []))
          ∙ append_assoc (map (λ (h, n). n) oob.shmem_handles) (m.length ∷ [])
              (map (λ m. m.length) regions),
    )

push_ports_lem :
    (w : System) (a : SendAnswers) (server : WinHandle) (ports : List OsIpcChannel)
    (oob oob' : OutOfBandMessage)
    → push_ports w a server ports oob ≡ ok oob'
    → (oob'.target_process_id ≡ oob.target_process_id)
      × (length oob'.channel_handles ≡ length oob.channel_handles + length ports)
      × (oob'.big_data_receiver_handle ≡ oob.big_data_receiver_handle)
      × (oob'.shmem_handles ≡ oob.shmem_handles)
unfolding push_ports
push_ports_lem w a server [] oob oob' e =
    let same : oob ≡ oob' = cc e in
    (
      ap (λ o. o.target_process_id) (sym same),
      ap (λ o. length o.channel_handles) (sym same) ∙ omega arith,
      ap (λ o. o.big_data_receiver_handle) (sym same),
      ap (λ o. o.shmem_handles) (sym same),
    )
push_ports_lem w a server (port ∷ ports) oob oob' e =
    let (handle, _, f) = >>=-ok (port_handle w a.quiesce port) _ e in
    let (remote, _, g) = >>=-ok (move_handle_to_process w a.duplicate handle server) _ f in
    let oob'' : OutOfBandMessage = record oob {
      channel_handles = oob.channel_handles ++ (remote.h ∷ []);
    } in
    let (target, channels, big, regions) = push_ports_lem w a server ports oob'' oob' g in
    (
      target,
      omega (arith, channels, length-append oob.channel_handles (remote.h ∷ [])),
      big,
      regions,
    )

abbrev served : WinHandle × ℕ → Result WinError (WinHandle × ℕ)
served server = ok server

abbrev plan_of : Bool → OutOfBandMessage → Bool × OutOfBandMessage
plan_of big oob = (big, oob)

abbrev planned : Bool → OutOfBandMessage → Result WinError (Bool × OutOfBandMessage)
planned big oob = ok (big, oob)

fragment_lem :
    (w : System) (a : SendAnswers) (server : WinHandle × ℕ) (n : ℕ) (oob oob' : OutOfBandMessage)
    (big : Bool)
    → (is_valid w server.0 ≡ true → a.server_process_id ≡ gives server.1)
    → fragment w a server n oob ≡ ok (big, oob')
    → (a.server_process_id ≡ gives oob'.target_process_id)
      × (oob'.channel_handles ≡ oob.channel_handles)
      × (oob'.shmem_handles ≡ oob.shmem_handles)
      × (big ≡ true)
      × ((h : ℕ) × (oob'.big_data_receiver_handle ≡ some (h, n)))
unfolding fragment
fragment_lem w a server n oob oob' big h e =
    >>=-each (channel a.create_pipe a.create_file) _ e λ ends _ f.
      >>=-each named_server _ f λ named server_is g.
        >>=-each
          (move_handle_to_process w a.duplicate (take_handle w ends.1.reader.handle).0 named.0) _ g
          λ remote _ k. fragmented named remote server_is k
  where
    named_server : Result WinError (WinHandle × ℕ)
    named_server =
        if is_valid w server.0
        then ok (server.0, server.1)
        else get_pipe_server_process_handle_and_pid w a

    target : (named : WinHandle × ℕ) → named_server ≡ ok named → a.server_process_id ≡ gives named.1
    target named server_is = elim (Bool-cases (is_valid w server.0)) [
      | inl good ↦ let same : server.1 ≡ named.1 = ground arith in h good ∙ ap (λ p. gives p) same
      | inr bad ↦
          let asked : get_pipe_server_process_handle_and_pid w a ≡ ok named = ground arith in
          server_named w a named asked
    ]

    fragmented :
        (named : WinHandle × ℕ) (remote : WinHandle)
        → named_server ≡ ok named
        → planned true (record oob {
          big_data_receiver_handle = some (remote.h, n);
          target_process_id = named.1;
        })
          ≡ planned big oob'
        → (a.server_process_id ≡ gives oob'.target_process_id)
          × (oob'.channel_handles ≡ oob.channel_handles)
          × (oob'.shmem_handles ≡ oob.shmem_handles)
          × (big ≡ true)
          × ((h : ℕ) × (oob'.big_data_receiver_handle ≡ some (h, n)))
    fragmented named remote server_is k =
        (cc (k, target named server_is), cc k, cc k, cc k, (remote.h, cc k))

-- Only what has been asked for is sent, as long as the data is in the message.
nothing_sent :
    (ports : List OsIpcChannel) (regions : List OsIpcSharedMemory) (channel_handles : List ℕ)
    (shmem_handles : List (ℕ × ℕ)) (big : Option (ℕ × ℕ))
    → (not (is_empty regions) || not (is_empty ports)) ≡ false
    → length channel_handles ≡ length ports
    → map (λ (h, n). n) shmem_handles ≡ map (λ m. m.length) regions
    → big ≡ none
    → (not (is_empty channel_handles) || not (is_empty shmem_handles) || is_some big) ≡ false
nothing_sent [] [] [] [] big c l m b = ap is_some b
nothing_sent [] [] (x ∷ xs) ys big c l m b = absurd (omega arith)
nothing_sent [] [] [] (y ∷ ys) big c l m b = absurd (cc m)
nothing_sent (p ∷ ports) [] xs ys big c l m b = absurd (cc c)
nothing_sent [] (r ∷ regions) xs ys big c l m b = absurd (cc c)
nothing_sent (p ∷ ports) (r ∷ regions) xs ys big c l m b = absurd (cc c)

module _ (w : System) (a : SendAnswers) (bytes : List ℕ) (ports : List OsIpcChannel)
    (regions : List OsIpcSharedMemory) where
  abbrev asked : Bool
  asked = not (is_empty regions) || not (is_empty ports)

  abbrev server_of : Result WinError (WinHandle × ℕ)
  server_of = if asked then get_pipe_server_process_handle_and_pid w a else ok (invalid w, 0)

  -- Where the process is known: it has been asked for, or its handle can be used.
  record IsNamed (server : WinHandle × ℕ) : Type 0 where
    when_asked : asked ≡ true → a.server_process_id ≡ gives server.1
    when_valid : is_valid w server.0 ≡ true → a.server_process_id ≡ gives server.1

  server_of-IsNamed : (server : WinHandle × ℕ) → server_of ≡ ok server → IsNamed server
  unfolding is_valid invalid
  server_of-IsNamed server e = elim (Bool-cases asked) [
    | inl yes_asked ↦
        let n : a.server_process_id ≡ gives server.1 =
          server_named w a server (subst (Chosen server) yes_asked e) in
        record { when_asked = λ _. n; when_valid = λ _. n }
    | inr not_asked ↦
        let f : served (invalid w, 0) ≡ ok server = subst (Chosen server) not_asked e in
        record {
          when_asked = λ g. absurd (cc (not_asked, g));
          when_valid = λ g. absurd (not_valid server f g);
        }
  ]
    where
      Chosen : WinHandle × ℕ → Bool → Type 0
      Chosen server b =
          (if b then get_pipe_server_process_handle_and_pid w a else ok (invalid w, 0)) ≡ ok server

      not_valid :
          (server : WinHandle × ℕ)
          → served (invalid w, 0) ≡ ok server
          → is_valid w server.0 ≡ true
          → ⊥
      not_valid server f g =
          let same : (invalid w, 0) ≡ server = cc f in
          let g' = subst (λ (s : WinHandle × ℕ). is_valid w s.0 ≡ true) (sym same) g in
          cc (==_refl w.invalid_handle_value, g')

  -- What the message has before it is known whether the data fits.
  record Accounts (server : WinHandle × ℕ) (full : OutOfBandMessage) : Type 0 where
    target : full.target_process_id ≡ server.1
    handles : length full.channel_handles ≡ length ports
    none_big : full.big_data_receiver_handle ≡ none
    sizes : map (λ (h, n). n) full.shmem_handles ≡ map (λ m. m.length) regions

  push-Accounts :
      (server : WinHandle × ℕ) (with_regions full : OutOfBandMessage)
      → push_regions w a.duplicate server.0 regions (new_oob server.1) ≡ ok with_regions
      → push_ports w a server.0 ports with_regions ≡ ok full
      → Accounts server full
  unfolding new_oob
  push-Accounts server with_regions full e f =
      let (target, handles, big, sizes) =
        push_regions_lem w a.duplicate server.0 regions (new_oob server.1) with_regions e in
      let (target', handles', big', sizes') =
        push_ports_lem w a server.0 ports with_regions full f in
      record {
        target = target' ∙ target;
        handles = omega (arith, handles', ap length handles);
        none_big = big' ∙ big;
        sizes = ap (λ xs. map (λ (h, n). n) xs) sizes' ∙ sizes;
      }

  ended :
      (server : WinHandle × ℕ) (full : OutOfBandMessage) (too_long big : Bool)
      (oob : OutOfBandMessage)
      → IsNamed server
      → Accounts server full
      → (if too_long then fragment w a server (length bytes) full else planned false full)
        ≡ planned big oob
      → Plans a bytes ports regions big oob
  unfolding needs_to_be_sent
  ended server full false big oob n f e =
      let same : plan_of false full ≡ plan_of big oob = cc e in
      subst (λ (p : Bool × OutOfBandMessage). Plans a bytes ports regions p.0 p.1) same
        (record {
          target = λ s. elim (Bool-cases asked) [
            | inl is_asked ↦ n.when_asked is_asked ∙ ap (λ p. gives p) (sym f.target)
            | inr not_asked ↦
                let none_sent =
                  nothing_sent ports regions full.channel_handles full.shmem_handles
                    full.big_data_receiver_handle not_asked f.handles f.sizes f.none_big in
                absurd (cc (s, none_sent))
          ];
          handles = f.handles;
          sizes = f.sizes;
          in_band = λ _. f.none_big;
          apart = λ g. absurd (cc g);
        })
  ended server full true big oob n f e =
      let (target, channels, sizes, is_big, (h, handle_is)) =
        fragment_lem w a server (length bytes) full oob big n.when_valid e in
      record {
        target = λ _. target;
        handles = ap length channels ∙ f.handles;
        sizes = ap (λ xs. map (λ (h, n). n) xs) sizes ∙ f.sizes;
        in_band = λ g. absurd (cc (is_big, g));
        apart = λ _. (h, handle_is);
      }

  pub prepare-Plans :
      (big : Bool) (oob : OutOfBandMessage)
      → prepare w a bytes ports regions ≡ ok (big, oob)
      → Plans a bytes ports regions big oob
  unfolding prepare
  prepare-Plans big oob e = >>=-each server_of _ e λ server server_is e1.
      >>=-each (push_regions w a.duplicate server.0 regions (new_oob server.1)) _ e1
        λ with_regions regions_are e2.
          >>=-each (push_ports w a server.0 ports with_regions) _ e2 λ full ports_are e3.
            >>=-each (needs_fragmentation w (length bytes) full) _ e3 λ too_long _ e4.
              ended server full too_long big oob (server_of-IsNamed server server_is)
                (push-Accounts server with_regions full regions_are ports_are) e4
