-- ===== src/Upstream.antt =====
-- src/upstream.h and src/upstream.cpp: the connection to the server, and who waits for a reply.
-- The readers of replies and the methods of connections stand behind an interface, as in the source.
pub mod Route
pub mod Push
pub mod Auth
pub mod Total
mod Tests
use redisproxy.Base.{
  ℕ, zero, suc, ◌+◌, ◌%◌, ◌^◌, Bool, true, false, Option, none, some, List, [], ◌∷◌, Bytes, length,
  ◌==◌, ltb, if◌then◌else◌,
}
use redisproxy.Error.{Error, ok, full, try_again, init_failed, not_implemented, is_none, equal}
use redisproxy.Mem.{Ptr}
use redisproxy.Buffer.View
use redisproxy.Recycle
use redisproxy.Recycle.{Recycle}
use redisproxy.Cmd.{Cmd, append_arg, format_resp2}
use redisproxy.Cmd.Parser
use redisproxy.Cmd.Parser.{Parser, parse_response}

-- `UpstreamReader` and the methods of `Connection` that the upstream calls. `R` names the readers that
-- are not part of the upstream; `none` is a fault, such as the use of a deleted object.
pub record Env (R S : Type 0) : Type 0 where
  pub identity : R → S → Option ℕ
  pub on_server_write : R → Bytes → S → Option S
  pub is_connected : Ptr → S → Option Bool
  pub write_to_buffer : Ptr → Bytes → S → Option (Error × S)
  pub on_read_event : Ptr → S → Option (Error × S)
  pub on_closed_event : Ptr → S → Option (Error × S)
  pub reconnect : Ptr → S → Option (Error × S)

-- An `UpstreamReader*`: the null pointer of a fresh `ReaderPair`, `authCmd_`, or one of the others.
pub data Target (R : Type 0) : Type 0 where
  nobody auth_reader : Target R
  reader : R → Target R

-- `ReaderPair`
pub record Pair (R : Type 0) : Type 0 where
  pub identity : ℕ
  pub target : Target R

-- `ReaderPair()`
abbrev pub no_pair : {R : Type 0} → Pair R
no_pair = record { identity = 0; target = nobody }

-- `room` is the free size of the input buffer of `parser_`. `auth_cmd` holds the command of `authCmd_`,
-- and is `none` for the null pointer.
pub record Upstream (R : Type 0) : Type 0 where
  pub server_conn : Option Ptr
  pub connect_times : ℕ
  pub resp_buffer : Bytes
  pub parser : Parser
  pub room : ℕ
  pub auth : Bool
  pub auth_cmd : Option Cmd
  pub cmd_queue : Recycle (Pair R)

-- `Upstream( opt )`
abbrev pub create : {R : Type 0} → ℕ → Upstream R
create conn_send_buffer_count = record {
  server_conn = none;
  connect_times = 0;
  resp_buffer = [];
  parser = Parser.fresh;
  room = 0;
  auth = false;
  auth_cmd = none;
  cmd_queue = Recycle.create no_pair conn_send_buffer_count;
}

-- The command of `cmd::Auth( pw, handler )`.
unfoldable pub auth_command : Bytes → Cmd
unfolding append_arg
auth_command pw = append_arg (append_arg [] (b'a' ∷ b'u' ∷ b't' ∷ b'h' ∷ [])) pw

-- `onAuthCallback( ok, cb )`
abbrev pub on_auth_callback : {R : Type 0} → Bool → Upstream R → Upstream R
on_auth_callback ok u = record u { auth = ok; auth_cmd = none }

-- `cmd::Auth::OnServerWrite( buffer )`, with the callback that `Init` sets.
unfoldable pub auth_on_server_write : {R : Type 0} → Bytes → Upstream R → Upstream R
auth_on_server_write [] u = on_auth_callback false u
auth_on_server_write (x ∷ resp) u = on_auth_callback (x == b'+') u

module _ {R S : Type 0} (env : Env R S) where
  -- A computation on the upstream and what is outside of it.
  abbrev pub Act : Type 0 → Type 0
  Act T = Upstream R → S → Option (T × Upstream R × S)

  -- `reader->Identity()`. `Auth` has the default, 0.
  unfoldable pub identity_of : Target R → Upstream R → S → Option ℕ
  identity_of nobody u s = none
  identity_of auth_reader u s = elim u.auth_cmd [ none ↦ none | some cmd ↦ some 0 ]
  identity_of (reader r) u s = env.identity r s

  -- `reader->OnServerWrite( buffer )`
  unfoldable pub deliver : Target R → Bytes → Upstream R → S → Option (Upstream R × S)
  unfolding auth_on_server_write
  deliver nobody bytes u s = none
  deliver auth_reader bytes u s = some (auth_on_server_write bytes u, s)
  deliver (reader r) bytes u s = elim (env.on_server_write r bytes s) [
    | none ↦ none
    | some s' ↦ some (u, s')
  ]

  -- `IsAcceptable()`
  unfoldable pub is_acceptable : Upstream R → S → Option Bool
  is_acceptable u s = elim u.server_conn [
    | none ↦ some false
    | some p ↦ elim (env.is_connected p s) [
      | none ↦ none
      | some connected ↦ some (if connected then u.auth else false)
    ]
  ]

  -- `PushRequest` from `cmdQueue_.Push` on.
  unfoldable pub enqueue : Ptr → Cmd → Target R → ℕ → Act Error
  enqueue p cmd target id u s =
      let (err, queue) = Recycle.push u.cmd_queue (record { identity = id; target = target }) in
      let (_, text) = format_resp2 cmd [] in
      if is_none err
      then elim (env.write_to_buffer p text s) [
        | none ↦ none
        | some (err', s') ↦ some (err', record u { cmd_queue = queue }, s')
      ]
      else some (if equal err full then try_again else err, u, s)

  -- `Upstream::PushRequest( cmd, reader )`. The buffer for the text is new, and memory does not run out.
  unfoldable pub push_request : Cmd → Target R → Act Error
  push_request cmd target u s = elim u.server_conn [
    | none ↦ none
    | some p ↦ elim (env.is_connected p s) [
      | none ↦ none
      | some false ↦ some (try_again, u, s)
      | some true ↦ elim (identity_of target u s) [
        | none ↦ none
        | some id ↦ enqueue p cmd target id u s
      ]
    ]
  ]

  -- `UpstreamPool::PushRequest( cmd, reader )`
  unfoldable pub pool_push_request : Bool → Cmd → Target R → Act Error
  pool_push_request cluster_mode cmd target u s =
      if cluster_mode then some (not_implemented, u, s) else elim (is_acceptable u s) [
        | none ↦ none
        | some false ↦ some (try_again, u, s)
        | some true ↦ push_request cmd target u s
      ]

  -- `Init` from the setting of the handlers on.
  unfoldable pub init_handlers : Ptr → Bytes → Act Error
  init_handlers p password u s = elim (env.on_read_event p s) [
    | none ↦ none
    | some (err, s₁) ↦
        if is_none err
        then elim (env.on_closed_event p s₁) [
          | none ↦ none
          | some (err', s₂) ↦
              if is_none err'
              then (if length password == 0
                  then some (ok, record u { auth = true }, s₂)
                  else push_request (auth_command password) auth_reader
                      (record u { auth_cmd = some (auth_command password) }) s₂)
              else some (err', u, s₂)
        ]
        else some (err, u, s₁)
  ]

  -- `Init( conn, password )`; `read_buffer_init_size` is the option of that name.
  unfoldable pub init : ℕ → Option ℕ → Ptr → Bytes → Act Error
  unfolding View.append_capacity
  init read_buffer_init_size grown conn password u s = elim u.server_conn [
    | some p ↦ some (init_failed, u, s)
    | none ↦ elim u.auth_cmd [
      | some cmd ↦ some (try_again, u, s)
      | none ↦
          let (err, room) = View.append_capacity grown u.room read_buffer_init_size in
          let u' = record u {
            server_conn = some conn;
            connect_times = (u.connect_times + 1) % 2 ^ 32;
            room = room;
          } in
          if is_none err then init_handlers conn password u' s else some (err, u', s)
    ]
  ]

  -- `OnServerClosed( conn )`
  unfoldable pub on_server_closed : Act Error
  on_server_closed u s = elim u.server_conn [
    | none ↦ none
    | some p ↦ elim (env.reconnect p s) [
      | none ↦ none
      | some (err, s') ↦ some (err, record u { connect_times = (u.connect_times + 1) % 2 ^ 32 }, s')
    ]
  ]

  -- The check that the reader is still the one that asked, and the delivery.
  unfoldable pub answer : Pair R → Bytes → Upstream R → S → Option (Upstream R × S)
  answer pair bytes u s = elim (identity_of pair.target u s) [
    | none ↦ none
    | some id ↦ if id == pair.identity then deliver pair.target bytes u s else some (u, s)
  ]

  -- One round of the loop of `OnServerRead` behind a reply that is whole; `true` means that the loop
  -- goes on.
  unfoldable pub reply_round : Act (Bool × Error)
  reply_round u s =
      let (err, pair, queue) = Recycle.pop u.cmd_queue no_pair in
      if is_none err
      then elim (answer pair u.resp_buffer (record u { cmd_queue = queue }) s) [
        | none ↦ none
        | some (u', s') ↦
            some ((true, ok), record u' { parser = Parser.reset u'.parser; resp_buffer = [] }, s')
      ]
      else some ((false, err), u, s)

  unfoldable pub read_round : Act (Bool × Error)
  read_round u s =
      let (err, parser, resp) = parse_response u.parser u.resp_buffer in
      let u' = record u { parser = parser; resp_buffer = resp } in
      if is_none err
      then reply_round u' s
      else some ((false, if equal err try_again then ok else err), u', s)

  -- The loop `while( !buffer->Empty() )` of `OnServerRead`. `none` is a fault, or no fuel.
  unfoldable pub read_loop : ℕ → Act Error
  read_loop zero u s = none
  read_loop (suc fuel) u s =
      if length u.parser.input == 0 then some (ok, u, s) else elim (read_round u s) [
        | none ↦ none
        | some ((true, err), u', s') ↦ read_loop fuel u' s'
        | some ((false, err), u', s') ↦ some (err, u', s')
      ]

  -- The end of `OnServerRead`; `min_size` is the option `ReadBufferMinSize`.
  unfoldable pub make_room : ℕ → Option ℕ → Upstream R → Error × Upstream R
  unfolding View.append_capacity
  make_room min_size grown u =
      if ltb u.room min_size
      then (
        (View.append_capacity grown u.room min_size).0,
        record u { room = (View.append_capacity grown u.room min_size).1 },
      )
      else (ok, u)

  -- `OnServerRead`. Each round but the first takes at least a byte of the input, so that the bytes of the
  -- input and two are rounds enough.
  unfoldable pub on_server_read : ℕ → Option ℕ → Act Error
  on_server_read min_size grown u s = elim (read_loop (length u.parser.input + 2) u s) [
    | none ↦ none
    | some (err, u', s') ↦
        if is_none err
        then some ((make_room min_size grown u').0, (make_room min_size grown u').1, s')
        else some (err, u', s')
  ]
