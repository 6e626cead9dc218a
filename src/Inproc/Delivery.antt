-- ===== src/Inproc/Delivery.antt =====
-- The queue between two lines of src/common/inproc.cpp, as what a client may rely on: it delivers the
-- bytes it holds, and takes what there is room for.
use libcppio.Prelude.{
  ℕ, suc, ◌%◌, ◌^◌, ◌<◌, ◌≤◌, ◌≡◌, ◌≢◌, sym, ap, ◌∙◌, List, [], ◌++◌, length, take, min, arith,
  take_all, length-take, take-append-drop,
}
use libcppio.Prelude.Int.{pos}
use libcppio.Line.{ErrorCode, received, read_failed, accepted, DeliversUpTo}
use libcppio.Ring.{capacity}
use libcppio.Ring.Put.{free}
use libcppio.Ring.Queue.{available_sizes}
use libcppio.DataQueue.{entering}
use libcppio.DataQueue.Steps.{bytes_of}
use libcppio.Inproc.{InprocLine, line_write}
use libcppio.Inproc.Alone.{
  GoodQueue, settle-returns, write_alone-Keeps, write_alone-Took, Read, full, empty, read_alone,
  read_alone-Read, read_alone-Keeps, word, word_take, alone,
}

module _ (line : InprocLine) (limit : ℕ) (timed : line.m_read_timeout ≡ pos (suc limit)) where
  pub alone-read :
      (g : GoodQueue) (n : ℕ)
      → 0 < n
      → n ≤ 4_294_967_295
      → Read g.queue (n % 2 ^ 64) (read_alone line limit timed g.queue (n % 2 ^ 64))
      → bytes_of g.queue ≢ []
      → (bs : List ℕ) × (g' : GoodQueue) × ((alone line limit timed).read g n ≡ (received bs, g'))
        × (0 < length bs)
        × (length bs ≤ n)
        × (length bs < 2_147_483_648)
        × (bytes_of g.queue ≡ bs ++ bytes_of g'.queue)
  alone-read g n some fits (full held t) _ =
      let (g', e, after) =
        settle-returns g (received []) (received (take (n % 2 ^ 64) (bytes_of g.queue)))
          (read_alone line limit timed g.queue (n % 2 ^ 64))
          (read_alone-Keeps line limit timed g (n % 2 ^ 64) (
            read_alone-Read line limit timed g.queue (n % 2 ^ 64) g.valid
              (word line limit timed n)))
          t.after t.result in
      let taken = length-take (n % 2 ^ 64) (bytes_of g.queue) in
      let (held_size, sizes) = available_sizes g.queue.m_buffer g.valid in
      (
        take (n % 2 ^ 64) (bytes_of g.queue),
        g',
        e,
        ground (arith, taken),
        ground (arith, taken),
        ground (arith, taken, held_size, sizes, g.small),
        sym (
            ap (◌++◌ (take (n % 2 ^ 64) (bytes_of g.queue))) (ap bytes_of after ∙ t.left)
            ∙ take-append-drop (n % 2 ^ 64) (bytes_of g.queue)),
      )
  alone-read g n some fits (empty e same none) ne = absurd (ne none)

  pub alone-read_empty :
      (g : GoodQueue) (n : ℕ)
      → 0 < n
      → n ≤ 4_294_967_295
      → Read g.queue (n % 2 ^ 64) (read_alone line limit timed g.queue (n % 2 ^ 64))
      → bytes_of g.queue ≡ []
      → (e : ErrorCode) × (g' : GoodQueue) × ((alone line limit timed).read g n
          ≡ (read_failed e, g'))
  alone-read_empty g n some fits (full held t) none = absurd (omega (arith, held, ap length none))
  alone-read_empty g n some fits (empty e same _) none =
      let (g', settled, _) =
        settle-returns g (received []) (read_failed e)
          (read_alone line limit timed g.queue (n % 2 ^ 64))
          (read_alone-Keeps line limit timed g (n % 2 ^ 64) (
            read_alone-Read line limit timed g.queue (n % 2 ^ 64) g.valid
              (word line limit timed n)))
          g.queue same in
      (e, g', settled)

  abbrev pub alone_delivers : DeliversUpTo 4_294_967_295 (alone line limit timed)
  alone_delivers = record {
    pending = λ g. bytes_of g.queue;
    read_some = λ g n some fits ne.
        alone-read g n some fits
          (read_alone-Read line limit timed g.queue (n % 2 ^ 64) g.valid (word line limit timed n))
          ne;
    read_end = λ g n some fits e.
        alone-read_empty g n some fits
          (read_alone-Read line limit timed g.queue (n % 2 ^ 64) g.valid (word line limit timed n))
          e;
  }

  pub alone-write :
      (g : GoodQueue) (bs : List ℕ)
      → 0 < length bs
      → length bs ≤ free g.queue.m_buffer
      → (g' : GoodQueue) × ((alone line limit timed).write g bs ≡ (accepted (length bs), g'))
        × (bytes_of g'.queue ≡ bytes_of g.queue ++ bs)
        × (capacity g'.queue.m_buffer ≡ capacity g.queue.m_buffer)
  alone-write g bs some fits =
      let sizes = available_sizes g.queue.m_buffer g.valid in
      let whole = take_all bs {n = length bs % 2 ^ 64} (omega (arith, g.small)) in
      let given = take (length bs % 2 ^ 64) bs in
      let took =
        write_alone-Took g given (omega (arith, ap length whole))
          (omega (arith, ap length whole)) in
      let (g', e, after) =
        settle-returns g (accepted 0) (accepted (min (length given) (free g.queue.m_buffer)))
          (line_write entering g.queue given)
          (write_alone-Keeps g given (word_take line limit timed bs)) took.after took.result in
      (
        g',
        e ∙ ap (λ n. (accepted n, g')) (ground (arith, ap length whole)),
        ap bytes_of after
            ∙ took.holds
            ∙ ap (◌++◌ (bytes_of g.queue)) (
                take_all given {n = free g.queue.m_buffer} (omega (arith, ap length whole))
                ∙ whole),
        ap (λ q. capacity q.m_buffer) after ∙ took.same_size,
      )
