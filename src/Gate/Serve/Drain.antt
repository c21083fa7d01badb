-- ===== src/Gate/Serve/Drain.antt =====
-- How an open connection ends well: what is sent is written, and `serve` can return. (gate/conn.go)
use gira.Prelude.{
  ℕ, ◌≡◌, refl, sym, ap, ◌∙◌, inl, true, false, Bool, subst, List, [], ◌∷◌, ◌++◌, append-nil,
  append_assoc, append_assoc, arith,
}
use gira.Gate.Conn.{Inbound}
use gira.Gate.Serve.{
  Limits, Live, Steps, reading, handing, returned, selecting, beating, draining, stopped, waiting,
  finished, read_fails, shut, drain, drained, watch, finish, here, next, opened, stop_writer,
  return_reader,
}
use gira.Gate.Serve.Invariant.{Inv-opened, Steps-Inv, reader_over, writer_over}

-- In every state that an open connection can come to: while no write has failed, the frames that
-- were written are the first of those that were sent, in order, and the others wait in the channel;
-- once the socket is closed, all of them have been written. The messages that the handler got are
-- the first of those handed to it, in order, and the others wait. A goroutine that is about to send
-- on a channel finds it open. When the session has left the server's map, the reading and the
-- writing goroutine are over.
pub opened-accounts :
    (l : Limits) (ms : List Inbound) (bad : Bool) (now : ℕ) (t : Live)
    → Steps l (opened ms bad now) t
    → (t.lost ≡ false → t.written ++ t.queue ≡ t.accepted)
      × (t.lost ≡ false → t.socket_open ≡ false → t.written ≡ t.accepted)
      × (t.received ++ t.inbox ≡ t.handed)
      × ((m : Inbound) (more : List Inbound) (b : Bool)
          → t.reader ≡ handing (m ∷ more) b
          → t.inbox_open ≡ true)
      × (t.writer ≡ beating → t.queue_open ≡ true)
      × (t.stored ≡ false → (reader_over t.reader ≡ true) × (writer_over t.writer ≡ true))
opened-accounts l ms bad now t r =
    let inv = Steps-Inv (Inv-opened ms bad now) r in
    (
      inv.in_order,
      (λ kept shut'.
          let (none_left, _) = inv.all_written kept (inv.socket shut') in
          sym (append-nil t.written)
          ∙ ap (λ q. t.written ++ q) (sym none_left)
          ∙ inv.in_order kept),
      inv.messages,
      (λ m more b e. ground (arith, inv.closed_by_reader)),
      (λ e. ground (arith, inv.shut_by_writer)),
      (λ gone. inv.over (inv.kept gone)),
    )

Steps-trans : {l : Limits} {s t u : Live} → Steps l s t → Steps l t u → Steps l s u
Steps-trans r here = r
Steps-trans r (next q st) = next (Steps-trans r q) st

-- The second loop of the writing goroutine, once the channel is closed.
drain_all :
    (l : Limits) (queue all : List (List ℕ)) (s : Live)
    → s.queue ≡ queue
    → s.written ++ queue ≡ all
    → s.writer ≡ draining
    → s.queue_open ≡ false
    → Steps l s (stop_writer (record s { queue = []; written = all }))
drain_all l [] all s q e w shut' =
    let same : s.written ≡ all = sym (append-nil s.written) ∙ e in
    subst
      (λ (x : List (List ℕ) × List (List ℕ)).
        Steps l s (stop_writer (record s { queue = x.0; written = x.1 })))
      (λ i. (q i, same i)) (next here (drained w q shut'))
drain_all l (d ∷ ds) all s q e w shut' =
    let s' : Live = record s { queue = ds; written = s.written ++ (d ∷ []) } in
    Steps-trans (next here (drain d ds w q))
      (drain_all l ds all s' refl (append_assoc s.written (d ∷ []) ds ∙ e) w shut')

-- The state in which `serve` has returned.
abbrev pub ended : Live → Live
ended s = record s {
  failed = true;
  socket_open = false;
  queue = [];
  queue_open = false;
  inbox_open = false;
  written = s.accepted;
  reader = returned;
  writer = stopped;
  watcher_returned = true;
  caller = finished;
  stored = false;
}

-- Once the handler has returned, `serve` can return from every state that an open connection can
-- come to in which no write has failed, the writing goroutine is in its `select` and the reading
-- one in a read: the channel is closed, every frame that was sent is written, then the socket is
-- closed, the reading goroutine returns, and the session leaves the server's map.
pub winds_down :
    (l : Limits) (ms : List Inbound) (bad : Bool) (now : ℕ) (s : Live)
    → Steps l (opened ms bad now) s
    → s.lost ≡ false
    → s.caller ≡ waiting
    → s.writer ≡ selecting
    → s.reader ≡ reading
    → Steps l s (ended s)
winds_down l ms bad now s r kept c w rd =
    let inv = Steps-Inv (Inv-opened ms bad now) r in
    let ends = inv.left c in
    let s1 : Live = record s { writer = draining; queue_open = false } in
    let s2 : Live = stop_writer (record s1 { queue = []; written = s.accepted }) in
    let s3 : Live = return_reader s2 true in
    let s4 : Live = record s3 { watcher_returned = true; failed = true } in
    next
      (next
        (next
          (Steps-trans (next here (shut w (inl ends)))
            (drain_all l s.queue s.accepted s1 refl (inv.in_order kept) refl refl))
          (read_fails rd))
        (watch (inl ends)))
      (finish c refl refl refl)
