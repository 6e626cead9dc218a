-- ===== src/DataQueue/Writes.antt =====
-- What `DataQueue::write` does, in terms of the bytes that the queue holds.
use libcppio.Prelude.{
  ℕ, zero, suc, ◌^◌, ◌<◌, ◌≡◌, refl, sym, ap, ◌∙◌, Bool, true, false, List, ◌++◌, length, take, min,
  arith, subst, ltb, leb, ◌==◌,
}
use libcppio.Memory.{ok}
use libcppio.Line.{connection_lost, too_big_buffer, Accepted, accepted, write_failed}
use libcppio.Ring
use libcppio.Ring.{Writing, capacity, available_write_size}
use libcppio.Ring.Queue.{available_sizes}
use libcppio.Ring.Write.{write_puts}
use libcppio.Ring.Put.{free}
use libcppio.DataQueue.{
  DataQueue, Phase, entering, notified, expired, Step, returns, waits, write_buffer, write_step,
}
use libcppio.DataQueue.Steps.{bytes_of, QueueIsValid}

-- A write that accepts bytes: as many as there is room for, which go behind those held.
pub record Took (q : DataQueue) (buffer : List ℕ) (step : Step Accepted) : Type 0 where
  pub after : DataQueue
  pub result : step ≡ returns (accepted (min (length buffer) (free q.m_buffer))) after
  pub holds : bytes_of after ≡ bytes_of q ++ take (free q.m_buffer) buffer
  pub same_flag : after.m_connected ≡ q.m_connected
  pub same_size : capacity after.m_buffer ≡ capacity q.m_buffer
  pub valid : QueueIsValid after

write_buffer-ok :
    (q : DataQueue) (buffer : List ℕ) (out : Writing)
    → Ring.write q.m_buffer buffer ≡ ok out
    → write_buffer q buffer ≡ returns (accepted out.count) (record q { m_buffer = out.ring })
unfolding write_buffer
write_buffer-ok q buffer out e = rw (write_buffer, e)

write_buffer-Took :
    (q : DataQueue) (buffer : List ℕ)
    → QueueIsValid q
    → length buffer < 2 ^ 64
    → Took q buffer (write_buffer q buffer)
write_buffer-Took q buffer v hn =
    let (out, e, t) = write_puts q.m_buffer buffer v hn in
    record {
      after = record q { m_buffer = out.ring };
      result =
          write_buffer-ok q buffer out e
          ∙ ap (λ k. returns (accepted k) (record q { m_buffer = out.ring })) t.count;
      holds = t.holds;
      same_flag = refl;
      same_size = t.room;
      valid = t.valid;
    }

no_room :
    (q : DataQueue)
    → QueueIsValid q
    → free q.m_buffer ≡ 0
    → (available_write_size q.m_buffer == 0) ≡ true
no_room q v e = ground (arith, available_sizes q.m_buffer v)

no_room_ltb :
    (q : DataQueue)
    → QueueIsValid q
    → free q.m_buffer ≡ 0
    → ltb 0 (available_write_size q.m_buffer) ≡ false
no_room_ltb q v e = ground (arith, available_sizes q.m_buffer v)

some_room :
    (q : DataQueue) (k : ℕ)
    → QueueIsValid q
    → free q.m_buffer ≡ suc k
    → (available_write_size q.m_buffer == 0) ≡ false
some_room q k v e = ground (arith, available_sizes q.m_buffer v)

some_room_ltb :
    (q : DataQueue) (k : ℕ)
    → QueueIsValid q
    → free q.m_buffer ≡ suc k
    → ltb 0 (available_write_size q.m_buffer) ≡ true
some_room_ltb q k v e = ground (arith, available_sizes q.m_buffer v)

-- What a write does, by whether the buffer is at least as large as the storage, by the room and by
-- the flag. A write that has waited looks at the room alone.
unfoldable pub WriteLaw : Phase → Bool → ℕ → Bool → DataQueue → List ℕ → Step Accepted → Type 0
WriteLaw entering true _ _ q buffer step = step ≡ returns (write_failed too_big_buffer) q
WriteLaw entering false zero false q buffer step = step ≡ returns (write_failed connection_lost) q
WriteLaw entering false zero true q buffer step = step ≡ waits q
WriteLaw entering false (suc k) _ q buffer step = Took q buffer step
WriteLaw _ _ zero _ q buffer step = step ≡ waits q
WriteLaw _ _ (suc k) _ q buffer step = Took q buffer step

write_step-WriteLaw :
    (phase : Phase) (q : DataQueue) (buffer : List ℕ)
    → QueueIsValid q
    → length buffer < 2 ^ 64
    → (large : Bool) (room : ℕ) (flag : Bool) → leb (capacity q.m_buffer) (length buffer) ≡ large
    → free q.m_buffer ≡ room
    → q.m_connected ≡ flag
    → WriteLaw phase large room flag q buffer (write_step phase q buffer)
unfolding write_step WriteLaw
write_step-WriteLaw entering q buffer v hn true room flag el er ef = rw el
write_step-WriteLaw entering q buffer v hn false zero false el er ef = rw (el, no_room q v er, ef)
write_step-WriteLaw entering q buffer v hn false zero true el er ef = rw (el, no_room q v er, ef)
write_step-WriteLaw entering q buffer v hn false (suc k) flag el er ef =
    subst (Took q buffer) (sym (rw (el, some_room q k v er))) (write_buffer-Took q buffer v hn)
write_step-WriteLaw notified q buffer v hn large zero flag el er ef = rw (no_room_ltb q v er)
write_step-WriteLaw notified q buffer v hn large (suc k) flag el er ef =
    subst (Took q buffer) (sym (rw (some_room_ltb q k v er))) (write_buffer-Took q buffer v hn)
write_step-WriteLaw expired q buffer v hn large zero flag el er ef = rw (no_room_ltb q v er)
write_step-WriteLaw expired q buffer v hn large (suc k) flag el er ef =
    subst (Took q buffer) (sym (rw (some_room_ltb q k v er))) (write_buffer-Took q buffer v hn)

-- A write: at its start it refuses a buffer at least as large as the storage; with no room it fails
-- if the queue is not connected and waits if it is; with room it accepts what fits, behind the bytes
-- held. After a wait the room alone decides, so a write to a full queue that has begun to wait goes
-- on waiting when the queue is disconnected. The queue is valid and the length fits in a word.
pub write_step_lem :
    (phase : Phase) (q : DataQueue) (buffer : List ℕ)
    → QueueIsValid q
    → length buffer < 2 ^ 64
    → WriteLaw phase
        (leb (capacity q.m_buffer) (length buffer))
        (free q.m_buffer)
        q.m_connected
        q
        buffer
        (write_step phase q buffer)
write_step_lem phase q buffer v hn =
    write_step-WriteLaw phase q buffer v hn (leb (capacity q.m_buffer) (length buffer))
      (free q.m_buffer) q.m_connected refl refl refl
