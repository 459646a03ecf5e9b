-- ===== src/Upstream/Push.antt =====
-- `Upstream::PushRequest` of upstream.cpp: what is sent, and who is put into the queue.
use redisproxy.Base.{
  ℕ, ◌-◌, ◌<◌, ◌≡◌, ◌∙◌, ap, refl, true, false, none, some, List, [], ◌∷◌, ◌++◌, length, arith,
  ◌==◌,
}
use redisproxy.Error.{Error, ok, full, try_again}
use redisproxy.Mem.{Ptr}
use redisproxy.Recycle
use redisproxy.Recycle.{Recycle}
use redisproxy.Recycle.Valid.{IsValid, push-IsValid, length-push}
use redisproxy.Recycle.Fifo.{contents, fifo_push, push_refines}
use redisproxy.Cmd.{Cmd}
use redisproxy.Cmd.Multibulk.RoundTrip.{text, format_resp2-text}
use redisproxy.Upstream.{Env, Upstream, Pair, Target, no_pair, identity_of, enqueue, push_request}

module _ {R S : Type 0} (env : Env R S) (cmd : Cmd) (target : Target R) (u : Upstream R)
    (s : S) where
  -- A push on a queue with a place left puts the reader last; the text of the command is what is
  -- written.
  abbrev pub Queues : Ptr → ℕ → Type 0
  Queues p id =
      (q : Recycle (Pair R)) × (push_request env cmd target u s
        ≡ elim (env.write_to_buffer p (text cmd) s) [
          | none ↦ none
          | some (err, s') ↦ some (err, record u { cmd_queue = q }, s')
        ])
      × IsValid q
      × (length q.holder ≡ length u.cmd_queue.holder)
      × (contents no_pair q
          ≡ contents no_pair u.cmd_queue ++ record { identity = id; target = target } ∷ [])

  push-full :
      (x : Pair R)
      → IsValid u.cmd_queue
      → length (contents no_pair u.cmd_queue) ≡ length u.cmd_queue.holder - 1
      → (Recycle.push u.cmd_queue x).0 ≡ full
  unfolding fifo_push
  push-full x v l =
      let t : (length (contents no_pair u.cmd_queue) == length u.cmd_queue.holder - 1) ≡ true =
        ground (arith, l) in
      let r : _ ≡ (full, contents no_pair u.cmd_queue) = push_refines no_pair x v ∙ rw t in
      ap (λ (t : Error × List (Pair R)). t.0) r

  push-ok :
      (x : Pair R)
      → IsValid u.cmd_queue
      → length (contents no_pair u.cmd_queue) < length u.cmd_queue.holder - 1
      → ((Recycle.push u.cmd_queue x).0 ≡ ok)
        × (contents no_pair (Recycle.push u.cmd_queue x).1 ≡ contents no_pair u.cmd_queue ++ x ∷ [])
  unfolding fifo_push
  push-ok x v l =
      let t : (length (contents no_pair u.cmd_queue) == length u.cmd_queue.holder - 1) ≡ false =
        ground (arith, l) in
      let r : _ ≡ (ok, contents no_pair u.cmd_queue ++ x ∷ []) = push_refines no_pair x v ∙ rw t in
      (ap (λ (t : Error × List (Pair R)). t.0) r, ap (λ (t : Error × List (Pair R)). t.1) r)

  push_on :
      (p : Ptr) (id : ℕ)
      → u.server_conn ≡ some p
      → identity_of env target u s ≡ some id
      → env.is_connected p s ≡ some true
      → push_request env cmd target u s ≡ enqueue env p cmd target id u s
  unfolding push_request
  push_on p id c i on = simp (c, on, i, push_request) refl

  -- `PushRequest` for a reader that is there. Where the server is not connected, or the queue has no
  -- place left, it returns `TryAgain`, and nothing has changed. Otherwise exactly the text of the
  -- command is written to the server's connection, and the reader, with the identity that it has
  -- now, waits behind those that waited before, in a queue with as many places.
  pub push_request-Queues :
      (p : Ptr) (id : ℕ)
      → u.server_conn ≡ some p
      → identity_of env target u s ≡ some id
      → IsValid u.cmd_queue
      → (env.is_connected p s ≡ some false
          → push_request env cmd target u s ≡ some (try_again, u, s))
        × (env.is_connected p s ≡ some true
            → length (contents no_pair u.cmd_queue) ≡ length u.cmd_queue.holder - 1
            → push_request env cmd target u s ≡ some (try_again, u, s))
        × (env.is_connected p s ≡ some true
            → length (contents no_pair u.cmd_queue) < length u.cmd_queue.holder - 1
            → Queues p id)
  unfolding push_request enqueue
  push_request-Queues p id c i v =
      let x : Pair R = record { identity = id; target = target } in
      (
        λ off. simp (c, off, push_request) refl,
        λ on l. push_on p id c i on ∙ rw (push-full x v l, enqueue) refl,
        λ on l.
            let (o, e) = push-ok x v l in
            (
              (Recycle.push u.cmd_queue x).1,
              push_on p id c i on ∙ rw (o, format_resp2-text cmd [], enqueue) refl,
              push-IsValid x v,
              length-push u.cmd_queue x,
              e,
            ),
      )
