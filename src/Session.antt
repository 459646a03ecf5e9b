-- ===== src/Session.antt =====
-- src/session.h and src/session.cpp: the requests of a client go to the pool of upstreams.
-- The pool and the methods of connections stand behind an interface.
pub mod Serve
pub mod Retry
pub mod Rounds
pub mod Total
mod Tests
use redisproxy.Base.{
  ℕ, zero, suc, ◌+◌, ◌%◌, ◌^◌, Bool, true, false, Option, none, some, List, [], ◌∷◌, Bytes, length,
  ◌==◌, ltb, if◌then◌else◌,
}
use redisproxy.Error.{Error, ok, try_again, is_none, equal, to_text}
use redisproxy.Mem.{Ptr}
use redisproxy.Buffer.View
use redisproxy.Conn.{Flags}
use redisproxy.Cmd
use redisproxy.Cmd.{Cmd}
use redisproxy.Cmd.Parser
use redisproxy.Cmd.Parser.{Parser, parse_request}

-- What a session calls: `UpstreamPool::PushRequest` for itself, and methods of `Connection`; `none` is
-- a fault, such as the use of a deleted connection.
pub record Env (S : Type 0) : Type 0 where
  pub push_request : Cmd → S → Option (Error × S)
  pub is_connected : Ptr → S → Option Bool
  pub set_readable : Ptr → Bool → S → Option (Error × S)
  pub write_to_buffer : Ptr → Bytes → Flags → S → Option (Error × S)
  pub on_read_event : Ptr → S → Option (Error × S)

-- `room` is the free size of the input buffer of `parser_`.
pub record Session : Type 0 where
  pub id : ℕ
  pub client_conn : Option Ptr
  pub current_cmd : Cmd
  pub parser : Parser
  pub room : ℕ

-- `Session( opt )` and `SetId( id )`
abbrev pub create : ℕ → Session
create id = record {
  id = id;
  client_conn = none;
  current_cmd = [];
  parser = Parser.fresh;
  room = 0;
}

-- `SessionPool::CreateSession`: the session, and the counter of identities, a `uint64_t`.
unfoldable pub create_session : ℕ → Session × ℕ
create_session id_counter = let next = (id_counter + 1) % 2 ^ 64 in (create next, next)

-- How a round of the loop of `OnClientRead` ends: with the next round, by `break`, or by a `return`.
pub data Flow : Type 0 where
  again stop : Flow
  returns : Error → Flow

-- `NET_FLAG_CLOSE`
abbrev pub net_flag_close : Flags
net_flag_close = record { close = true; rst = false }

module _ {S : Type 0} (env : Env S) where
  abbrev pub Act : Type 0 → Type 0
  Act T = Session → S → Option (T × Session × S)

  -- `OnServerWrite( buffer )`
  unfoldable pub on_server_write : Bytes → Session → S → Option S
  on_server_write buffer sess s = elim sess.client_conn [
    | none ↦ none
    | some p ↦ elim (env.is_connected p s) [
      | none ↦ none
      | some false ↦ some s
      | some true ↦ elim (env.write_to_buffer p buffer (record { close = false; rst = false }) s) [
        | none ↦ none
        | some (_, s₁) ↦ elim (env.set_readable p true s₁) [ none ↦ none | some (_, s₂) ↦ some s₂ ]
      ]
    ]
  ]

  -- A call of `PushRequest` for the current command. With `TryAgain` the client is not read any more,
  -- and the handler returns OK.
  unfoldable pub submit : Ptr → Act Flow
  submit conn sess s = elim (env.push_request sess.current_cmd s) [
    | none ↦ none
    | some (err, s₁) ↦
        if is_none err
        then some (again, record sess { current_cmd = Cmd.reset sess.current_cmd }, s₁)
        else if equal err try_again
        then elim (env.set_readable conn false s₁) [
          | none ↦ none
          | some (_, s₂) ↦ some (returns ok, sess, s₂)
        ]
        else some (returns err, sess, s₁)
  ]

  -- A request that is whole: the parser is reset once the request has been taken.
  unfoldable pub request_round : Ptr → Act Flow
  request_round conn sess s = elim (submit conn sess s) [
    | some (again, sess', s') ↦
        some (again, record sess' { parser = Parser.reset sess'.parser }, s')
    | other ↦ other
  ]

  -- One round of the loop. What is wrong with a request is written back, and the connection is to be
  -- closed.
  unfoldable pub read_round : Ptr → Act Flow
  read_round conn sess s = elim (parse_request sess.parser sess.current_cmd) [
    | none ↦ none
    | some (err, parser, cmd) ↦
        let sess' = record sess { parser = parser; current_cmd = cmd } in
        if is_none err
        then request_round conn sess' s
        else if equal err try_again
        then some (stop, sess', s)
        else elim (env.write_to_buffer conn (to_text err) net_flag_close s) [
          | none ↦ none
          | some (_, s') ↦ some (returns err, sess', s')
        ]
  ]

  -- The loop `while( !buffer->Empty() )`. `none` is a fault, or no fuel.
  unfoldable pub read_loop : ℕ → Ptr → Act Flow
  read_loop zero conn sess s = none
  read_loop (suc fuel) conn sess s =
      if length sess.parser.input == 0
      then some (stop, sess, s)
      else elim (read_round conn sess s) [
        | some (again, sess', s') ↦ read_loop fuel conn sess' s'
        | other ↦ other
      ]

  -- The end of `OnClientRead`; `min_size` is the option `ReadBufferMinSize`.
  unfoldable pub make_room : ℕ → Option ℕ → Session → Error × Session
  make_room min_size grown sess =
      if ltb sess.room min_size
      then (
        (View.append_capacity grown sess.room min_size).0,
        record sess { room = (View.append_capacity grown sess.room min_size).1 },
      )
      else (ok, sess)

  -- What `OnClientRead` does behind its loop.
  unfoldable pub finish : ℕ → Option ℕ → Option (Flow × Session × S) → Option (Error × Session × S)
  finish min_size grown none = none
  finish min_size grown (some (returns err, sess, s)) = some (err, sess, s)
  finish min_size grown (some (flow, sess, s)) =
      some ((make_room min_size grown sess).0, (make_room min_size grown sess).1, s)

  -- The loop with rounds enough: each but the first takes at least a byte of the input.
  abbrev pub read_all : Ptr → Act Flow
  read_all conn sess s = read_loop (length sess.parser.input + 2) conn sess s

  -- `OnClientRead( conn, buffer )`
  unfoldable pub on_client_read : ℕ → Option ℕ → Ptr → Act Error
  unfolding Cmd.is_empty
  on_client_read min_size grown conn sess s =
      if Cmd.is_empty sess.current_cmd
      then finish min_size grown (read_all conn sess s)
      else elim (submit conn sess s) [
        | none ↦ none
        | some (returns err, sess', s') ↦ some (err, sess', s')
        | some (flow, sess', s') ↦ finish min_size grown (read_all conn sess' s')
      ]

  -- `OnNewClientConnection( conn )`; `init_size` is the option `ReadBufferInitSize`.
  unfoldable pub on_new_client_connection : ℕ → Option ℕ → Ptr → Act Error
  on_new_client_connection init_size grown conn sess s =
      let (err, room) = View.append_capacity grown sess.room init_size in
      let sess' = record sess { client_conn = some conn; room = room } in
      if is_none err
      then elim (env.on_read_event conn s) [
        | none ↦ none
        | some (err', s') ↦ some (err', sess', s')
      ]
      else some (err, sess', s)
