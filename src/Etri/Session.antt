-- ===== src/Etri/Session.antt =====
-- src/tagServer.c and src/lib/ETRI_Registration.c: what the middleware gets, whatever the link does.
use i_dcu_io_t.Common.{
  ℕ, zero, suc, ◌+◌, ◌≤◌, ◌≡◌, refl, ◌∙◌, ap, arith, Bool, true, false, ◌&&◌, inl, inr, Bool-cases,
  some, none, Option, List, [], ◌∷◌, All, All-append, ◌==◌, le→leb, Run, ok, ◌>>=◌, Returns,
  Returns-bind, Returns-if, length,
}
use i_dcu_io_t.Etri.{
  Info, Row, Table, System, Server, gate_node, pan_node, sensor_node, report, send, sender, then_on,
  send_last_first, register_transducers, etri_registration, connect, after, init_loop, init, serve,
  serve_all,
}
use i_dcu_io_t.Etri.Framing.{
  IsFramed, IsInfo, IsRow, gate_node-IsFramed, pan_node-IsFramed, sensor_node-IsFramed,
  report-IsFramed, transducers-IsFramed,
}

-- The table has the rows that it counts, at most 256, and their units fit.
pub record IsTable (t : Table) : Type 0 where
  pub rows : (rs : List Row) → t.rows ≡ some rs → All IsRow rs × (t.count ≤ length rs)
  pub few : t.count ≤ 256

abbrev pub Framed : Server → Type 0
Framed s = All IsFramed s.sent

-- Packets are added, and nothing else changes but the number of sends.
abbrev Steady : Server → Server → Type 0
Steady s s' = Framed s' × (s'.registrations ≡ s.registrations) × (s'.connected ≡ s.connected)

module _ (w : System) where
  send-Steady : (p : List ℕ) (s : Server) → IsFramed p → Framed s → Steady s (send w p s).1
  unfolding send
  send-Steady p s framed all = elim (Bool-cases (s.connected && w.takes s.sends)) [
    | inl yes' ↦ rw yes' (All-append IsFramed s.sent (p ∷ []) all (framed, tt), refl, refl)
    | inr no' ↦ rw no' (all, refl, refl)
  ]

  sender-Steady : (p : List ℕ) (s : Server) → IsFramed p → Framed s → Steady s (sender w p s).1
  unfolding sender
  sender-Steady p s framed all = send-Steady p s framed all

  send_last_first-Steady :
      (ps : List (List ℕ)) (s : Server)
      → All IsFramed ps
      → Framed s
      → Steady s (send_last_first w ps s).1
  unfolding send_last_first
  send_last_first-Steady [] s fs all = (all, refl, refl)
  send_last_first-Steady (p ∷ ps) s fs all =
      let (later, regs, con) = send_last_first-Steady ps s fs.1 all in
      let (here, regs', con') = sender-Steady p (send_last_first w ps s).1 fs.0 later in
      elim (Bool-cases (send_last_first w ps s).0) [
        | inl more ↦ rw more (here, regs' ∙ regs, con' ∙ con)
        | inr stop ↦ rw stop (later, regs, con)
      ]

then_on-Returns :
    (Q : Bool × Server → Type 0) (r : Bool × Server) (next : Server → Run (Bool × Server))
    → Q (false, r.1)
    → Returns (next r.1) Q
    → Returns (then_on r next) Q
then_on-Returns Q (true, s) next stop more = more
then_on-Returns Q (false, s) next stop more = ((false, s), refl, stop)

after_done :
    (left : ℕ) (again : Server → Run (Bool × Server)) (s : Server)
    → after left again (true, s) ≡ ok (true, s)
after_done zero again s = refl
after_done (suc left) again s = refl

module _ (w : System) (floats : (n : ℕ) → length (w.float_bytes n) ≡ 4)
    (tables : (k : ℕ) → IsTable (w.table k)) (i : Info) (v : IsInfo i) where
  register_transducers-Steady :
      (t : Table) (s : Server)
      → IsTable t
      → Framed s
      → Returns (register_transducers w i t s) (λ r. Steady s r.1)
  unfolding register_transducers
  register_transducers-Steady t s ok_t all = by_rows t.rows refl
    where
      by_rows :
          (o : Option (List Row))
          → t.rows ≡ o
          → Returns (register_transducers w i t s) (λ r. Steady s r.1)
      by_rows none e = rw e ((t.unset, s), refl, (all, refl, refl))
      by_rows (some []) e = rw e ((t.unset, s), refl, (all, refl, refl))
      by_rows (some (r ∷ rest)) e = elim (Bool-cases (t.count == 0)) [
        | inl none' ↦ rw (e, none') ((t.unset, s), refl, (all, refl, refl))
        | inr some' ↦
            let (fit, few) = ok_t.rows (r ∷ rest) e in
            let (ps, got, framed) = transducers-IsFramed w floats t.count (r ∷ rest) v fit few in
            rw (e, some', le→leb t.count 256 ok_t.few, got)
              (send_last_first w ps s, refl, send_last_first-Steady w ps s framed all)
      ]

  -- A registration adds framed packets, and leaves the connection as it is.
  registration-Returns :
      (s : Server)
      → Framed s
      → Returns (etri_registration w i s) (λ r.
        Framed r.1 × (r.1.registrations ≡ s.registrations + 1) × (r.1.connected ≡ s.connected))
  unfolding etri_registration
  registration-Returns s all =
      let t = w.table s.registrations in
      let s' : Server = record s { registrations = s.registrations + 1 } in
      let Q : Bool × Server → Type 0 = λ r.
        Framed r.1 × (r.1.registrations ≡ s.registrations + 1) × (r.1.connected ≡ s.connected) in
      let a = sender w (gate_node i) s' in
      let b = sender w (pan_node i) a.1 in
      let c = sender w (sensor_node i) b.1 in
      let (fa, ra, ca) = sender-Steady w (gate_node i) s' (gate_node-IsFramed v) all in
      let (fb, rb, cb) = sender-Steady w (pan_node i) a.1 (pan_node-IsFramed v) fa in
      let (fc, rc, cc') = sender-Steady w (sensor_node i) b.1 (sensor_node-IsFramed v) fb in
      let (r, e, (fr, rr, cr)) = register_transducers-Steady t c.1 (tables s.registrations) fc in
      Returns-if Q t.opens _ _
        (λ open'.
          then_on-Returns Q a _ (fa, ra, ca)
            (then_on-Returns Q b _ (fb, rb ∙ ra, cb ∙ ca)
              (then_on-Returns Q c (register_transducers w i t) (fc, rc ∙ rb ∙ ra, cc' ∙ cb ∙ ca)
                (r, e, (fr, rr ∙ rc ∙ rb ∙ ra, cr ∙ cc' ∙ cb ∙ ca)))))
        (λ shut. ((false, s'), refl, (all, refl, refl)))

  -- What `init` leaves: framed packets only, the connection open exactly where it says so, and at
  -- most `left + 1` registrations more.
  abbrev Ready : ℕ → Server → Bool × Server → Type 0
  Ready left s r =
      Framed r.1 × (r.1.connected ≡ r.0) × (r.1.registrations ≤ s.registrations + (left + 1))

  connect-Steady :
      (s : Server)
      → Framed s
      → Framed (connect w s).1
        × ((connect w s).1.registrations ≡ s.registrations)
        × ((connect w s).1.connected ≡ (connect w s).0)
  unfolding connect
  connect-Steady s all = elim (Bool-cases s.connected) [
    | inl open' ↦ rw open' (all, refl, refl)
    | inr shut ↦ rw shut (all, refl, refl)
  ]

  attempt :
      (left : ℕ) (s : Server) (again : Server → Run (Bool × Server))
      → Framed s
      → ((s' : Server)
          → Framed s'
          → s'.registrations ≡ s.registrations + 1
          → Returns (after left again (false, s')) (Ready left s))
      → Returns
          (then_on (connect w s) (λ s'. etri_registration w i s' >>= after left again))
          (Ready left s)
  attempt left s again all retry =
      let (fc, rc, cc') = connect-Steady s all in on_connect (connect w s) fc rc cc'
    where
      on_registration :
          (q : Bool × Server)
          → Framed q.1
          → q.1.registrations ≡ s.registrations + 1
          → q.1.connected ≡ true
          → Returns (after left again q) (Ready left s)
      on_registration (true, s2) f r c =
          rw (after_done left again s2) ((true, s2), refl, (f, c, omega arith))
      on_registration (false, s2) f r c = retry s2 f r

      on_connect :
          (r : Bool × Server)
          → Framed r.1
          → r.1.registrations ≡ s.registrations
          → r.1.connected ≡ r.0
          → Returns (then_on r (λ s'. etri_registration w i s' >>= after left again)) (Ready left s)
      on_connect (false, s1) f r c = ((false, s1), refl, (f, c, omega arith))
      on_connect (true, s1) f r c =
          Returns-bind _ _ _ _ (registration-Returns s1 f)
            λ q k. on_registration q k.0 (k.1 ∙ ap (λ n. n + 1) r) (k.2 ∙ c)

  init_loop-Returns :
      (left : ℕ) (s : Server) → Framed s → Returns (init_loop w i left s) (Ready left s)
  unfolding init_loop
  init_loop-Returns zero s all =
      attempt zero s (λ s''. ok (false, s'')) all
        (λ s' f r. ((false, record s' { connected = false }), refl, (f, refl, omega arith)))
  init_loop-Returns (suc left) s all = attempt (suc left) s (init_loop w i left) all (λ s' f r.
      let (q, e, (fq, cq, rq)) = init_loop-Returns left s' f in (q, e, (fq, cq, omega (arith, r))))

  -- On a link where all packets sent so far are framed, with tables whose rows are there and fit:
  -- `init` returns after at most three registrations, every packet sent is framed, and it says that
  -- it was successful exactly where the connection is open.
  pub init-Returns :
      (s : Server)
      → Framed s
      → Returns
          (init w i s)
          (λ r. Framed r.1 × (r.1.connected ≡ r.0) × (r.1.registrations ≤ s.registrations + 3))
  unfolding init
  init-Returns s all = init_loop-Returns 2 s all

  abbrev pub Small : ℕ × ℕ × List ℕ → Type 0
  Small m = length m.2 ≤ 1024

  serve-Returns :
      (data_type now : ℕ) (bytes : List ℕ) (s : Server)
      → length bytes ≤ 1024
      → Framed s
      → Returns (serve w i now data_type bytes s) Framed
  unfolding serve
  serve-Returns data_type now bytes s small all =
      let r = send w (report i now bytes) s in
      let (f, _, _) =
        send-Steady w (report i now bytes) s (report-IsFramed i now bytes small) all in
      Returns-if Framed (data_type == 1) _ _
        (λ one. rw (le→leb (length bytes) 1024 small) (
          Returns-if Framed r.0 _ _ (λ taken. (r.1, refl, f))
            (λ lost.
              let (q, e, k) = init-Returns (record r.1 { connected = false }) f in
              rw e (q.1, refl, k.0))))
        (λ other. (s, refl, all))

  -- Whatever connects, sends and answers fail: the server takes any messages of at most 1024 bytes,
  -- and each packet that it has sent, of a registration or of a reading, has in its second number
  -- the size of what follows that number.
  pub serve_all-Framed :
      (messages : List (ℕ × ℕ × List ℕ)) (s : Server)
      → All Small messages
      → Framed s
      → Returns (serve_all w i messages s) Framed
  unfolding serve_all
  serve_all-Framed [] s small all = (s, refl, all)
  serve_all-Framed ((data_type, now, bytes) ∷ messages) s small all =
      Returns-bind _ _ _ _ (serve-Returns data_type now bytes s small.0 all)
        λ s' f. serve_all-Framed messages s' small.1 f
