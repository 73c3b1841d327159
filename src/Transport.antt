-- ===== src/Transport.antt =====
-- example/bjy-common/lib/helper/Transport.js: a connection with an ordered list of servers, retries,
-- a queue of what is sent before it is open, and reconnection. A method or callback returns the new
-- object and what it does to the outside, in order: sockets, timers, and calls of the owner's handlers
-- (which are taken to be set, as is a socket's optional `clear`). Sockets are numbers; a callback is
-- given its closure's variables.
pub mod Queue
pub mod Attempts
pub mod Rounds
pub mod Retry
pub mod Opening
pub mod Closing
pub mod Steps
pub mod Traces
pub mod Sent
pub mod Fifo
use webtransport_gos.Prelude.{
  ℕ, suc, ◌+◌, ◌-◌, Bool, true, false, ◌&&◌, Option, none, some, List, [], ◌∷◌, ◌++◌, ltb, ◌==◌,
  if◌then◌else◌, length, get_elem?,
}

-- `TransportStatus`: NONE, OPEN, ERROR, CLOSE, CLOSING, TIMEOUT, CONNECTING.
pub data TransportStatus : Type 0 where
  unset opened error closed closing timed_out connecting : TransportStatus

abbrev pub is_open : TransportStatus → Bool
is_open opened = true
is_open _ = false

abbrev pub is_connecting : TransportStatus → Bool
is_connecting connecting = true
is_connecting _ = false

abbrev pub is_closing : TransportStatus → Bool
is_closing closing = true
is_closing _ = false

-- A server's address, and a socket.
abbrev pub Server : Type 0
Server = ℕ

abbrev pub Socket : Type 0
Socket = ℕ

-- The options that the methods read.
pub record Options : Type 0 where
  pub retry_count : ℕ
  pub queue_max : ℕ
  pub interval : ℕ
  pub connect_on_close : Bool
  pub refresh_queue_on_close : Bool

-- The variables of one call of `connect` that its callbacks share: `proxys`, the servers, and how
-- many of them have been tried in this round (`serverIndex + 1`).
pub record Session : Type 0 where
  pub proxys : List Server
  pub servers : List Server
  pub tried : ℕ

pub data Effect (D : Type 0) : Type 0 where
  new_socket : Session → Option Server → Effect D
  start_later : Session → Effect D
  clear_start : Effect D
  socket_send : Socket → D → Effect D
  socket_close : Socket → Effect D
  socket_clear : Socket → Effect D
  socket_detach : Socket → Effect D
  close_later : Socket → Effect D
  connect_later : Effect D
  on_send : D → Effect D
  on_receive : D → Effect D
  on_open : Server → Bool → Effect D
  on_reconnecting : Effect D
  on_close : Effect D
  on_error : Server → Effect D
  on_timeout : Server → Effect D

module _ (D : Type 0) where
  pub record Transport : Type 0 where
    pub status : TransportStatus
    pub queue : List D
    pub is_reconnect : Bool
    pub retry_index : ℕ
    pub socket : Option Socket
    pub server : Option Server
    pub proxys : List Server
    pub next_start_timer : Bool

  abbrev pub Outcome : Type 0
  Outcome = Transport × List (Effect D)

module _ {D : Type 0} where
  -- `new Transport(options)`
  unfoldable pub new_transport : Transport D
  new_transport = record {
    status = unset;
    queue = [];
    is_reconnect = false;
    retry_index = 0;
    socket = none;
    server = none;
    proxys = [];
    next_start_timer = false;
  }

  -- `nextStart`: the next server of the list is tried, unless the transport was closed meanwhile.
  unfoldable pub next_start : Session → Transport D → Outcome D
  next_start c t =
      let t' = record t { next_start_timer = false } in
      elim t.status [
        | connecting ↦
            (t', new_socket (record c { tried = c.tried + 1 }) (get_elem? c.servers c.tried) ∷ [])
        | closing ↦ (record t' { status = closed }, [])
        | _ ↦ (t', [])
      ]

  unfoldable pub next_end : Options → Session → Transport D → Outcome D
  unfolding next_start
  next_end o c t =
      if ltb 0 o.interval
      then (record t { next_start_timer = true }, start_later c ∷ [])
      else next_start c t

  -- `connect(server, proxys)`
  unfoldable pub connect : Server → List Server → Transport D → Outcome D
  unfolding next_start
  connect server proxys t =
      let t' = record t { server = some server; proxys = proxys } in
      let c : Session = record { proxys = proxys; servers = server ∷ proxys; tried = 0 } in
      let begin = next_start c (record t' { status = connecting }) in
      elim t.status [ opened ↦ (t', []) | connecting ↦ (t', []) | closing ↦ (t', []) | _ ↦ begin ]

  -- `while (me.queue.length) { … socket.send(payload) … }`, without and with the call of `onSend`.
  abbrev pub send_all : Socket → List D → List (Effect D)
  send_all s [] = []
  send_all s (d ∷ ds) = socket_send s d ∷ send_all s ds

  abbrev pub send_all_notify : Socket → List D → List (Effect D)
  send_all_notify s [] = []
  send_all_notify s (d ∷ ds) = socket_send s d ∷ on_send d ∷ send_all_notify s ds

  -- The callback of `connectServer` when the transport is no longer connecting: a transport that is
  -- being closed sends what is queued if its options say so, and closes the new socket.
  unfoldable pub complete_late : Options → Socket → TransportStatus → Transport D → Outcome D
  complete_late o s result t =
      if is_closing t.status
      then (if is_open result && (o.refresh_queue_on_close && ltb 0 (length t.queue))
          then (record t { queue = [] }, send_all_notify s t.queue ++ close_later s ∷ [])
          else (record t { status = closed }, socket_close s ∷ []))
      else (t, [])

  -- The connection is open: the handlers are set, the owner is told, and the queue is sent.
  unfoldable pub complete_open : Options → Socket → Server → Transport D → Outcome D
  complete_open o s server t = (
    record t {
      socket = some s;
      status = opened;
      queue = [];
      retry_index = if ltb 0 o.retry_count then 0 else t.retry_index;
    },
    on_open server t.is_reconnect ∷ send_all s t.queue,
  )

  -- The `switch` over the status of the last attempt.
  abbrev pub failure : TransportStatus → Server → List (Effect D)
  failure error server = on_error server ∷ []
  failure timed_out server = on_timeout server ∷ []
  failure _ server = []

  -- No connection: the next server, or another round over all of them, or the end of it.
  unfoldable pub complete_failed :
      Options → Session → Server → TransportStatus → Transport D → Outcome D
  unfolding next_end
  complete_failed o c server result t =
      if c.tried == length c.servers
      then (let counted = record t {
        retry_index = if ltb 0 o.retry_count then t.retry_index + 1 else t.retry_index;
      } in
          if ltb 0 o.retry_count && ltb t.retry_index (o.retry_count - 1)
          then next_end o (record c { tried = 0 }) counted
          else (record counted { status = result }, failure result server))
      else next_end o c t

  -- `connectComplete`, by `onopen`, `onerror` or the timeout of the attempt.
  unfoldable pub complete :
      Options → Session → Socket → Server → TransportStatus → Transport D → Outcome D
  unfolding complete_late complete_open complete_failed
  complete o c s server result t =
      if is_connecting t.status
      then (if is_open result
          then complete_open o s server t
          else complete_failed o c server result t)
      else complete_late o s result t

  -- `socket.onmessage`, for a message of text that JSON.parse takes: `onReceive` and `onmessage` are one
  -- handler here. What JSON.parse throws, and binary messages, are not modelled.
  unfoldable pub message : D → Transport D → Outcome D
  message d t = if is_open t.status then (t, on_receive d ∷ []) else (t, [])

  -- `socket.onclose`
  unfoldable pub socket_closed : Options → Session → Socket → Server → Transport D → Outcome D
  unfolding connect
  socket_closed o c s server t =
      if is_open t.status
      then (if o.connect_on_close
          then (let (t', out) =
                connect server c.proxys (record t { status = unset; is_reconnect = true }) in
              (t', on_reconnecting ∷ socket_clear s ∷ out))
          else (t, on_close ∷ []))
      else (t, [])

  -- `queue.shift()`
  abbrev pub shift : List D → List D
  shift [] = []
  shift (d ∷ ds) = ds

  -- `send(data)`
  unfoldable pub send : Options → D → Transport D → Outcome D
  send o d t =
      let room =
        if ltb 0 o.queue_max && length t.queue == o.queue_max then shift t.queue else t.queue in
      if is_open t.status
      then (t, elim t.socket [ none ↦ [] | some s ↦ socket_send s d ∷ on_send d ∷ [] ])
      else (record t { queue = room ++ d ∷ [] }, [])

  -- `while (this.queue.length) { this.send(this.queue.shift()); }` of `close`, on fuel. `none` means
  -- that the rounds given were not enough.
  unfoldable pub flush : ℕ → Options → Transport D → Option (Outcome D)
  flush ℕ.zero o t = none
  flush (suc fuel) o t = elim t.queue [
    | [] ↦ some (t, [])
    | d ∷ ds ↦
        let (t', out) = send o d (record t { queue = ds }) in
        elim (flush fuel o t') [ none ↦ none | some r ↦ some (r.0, out ++ r.1) ]
  ]

  -- The last `if` of `close`: a pending `nextStart` is cancelled.
  abbrev pub cancel_start : Outcome D → Outcome D
  cancel_start (t, out) =
      if t.next_start_timer
      then (record t { next_start_timer = false }, out ++ clear_start ∷ [])
      else (t, out)

  -- `close()`, on fuel for the loop that sends the queue.
  unfoldable pub close : ℕ → Options → Transport D → Option (Outcome D)
  unfolding flush
  close fuel o t =
      let t' = record t { socket = none; status = closing } in
      elim t.socket [
        | none ↦ some (cancel_start (t', []))
        | some s ↦
            if o.refresh_queue_on_close && ltb 0 (length t.queue)
            then elim (flush fuel o t') [
              | none ↦ none
              | some r ↦ some (cancel_start (r.0, r.1 ++ socket_detach s ∷ close_later s ∷ []))
            ]
            else some (
                cancel_start (record t' { status = closed }, socket_detach s ∷ socket_close s ∷ []))
      ]

  -- The timer that `close` and `complete_late` set: the socket is closed after a second.
  unfoldable pub closed_later : Socket → Transport D → Outcome D
  closed_later s t = (record t { status = closed }, socket_close s ∷ [])

  -- `this.connect(this.server, this.proxys)`. Before the first `connect` there is no server, and a
  -- TypeError is thrown: `none`.
  abbrev pub connect_again : Transport D → Option (Outcome D)
  connect_again t = elim t.server [ none ↦ none | some server ↦ some (connect server t.proxys t) ]

  -- `reconnect()`, on fuel for `close`.
  unfoldable pub reconnect : ℕ → Options → Transport D → Option (Outcome D)
  reconnect fuel o t = if is_connecting t.status then some (t, []) else elim (close fuel o t) [
    | none ↦ none
    | some r ↦
        if is_closing r.0.status
        then some (r.0, r.1 ++ connect_later ∷ [])
        else elim (connect_again r.0) [ none ↦ none | some again ↦ some (again.0, r.1 ++ again.1) ]
  ]

  -- The timer that `reconnect` sets.
  unfoldable pub connect_now : Transport D → Option (Outcome D)
  connect_now t = connect_again (record t { status = closed })
