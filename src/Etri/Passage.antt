-- ===== src/Etri/Passage.antt =====
-- From a line of a controller (src/driver/PLCS_12.c) through the queue to the middleware
-- (src/tagServer.c).
use i_dcu_io_t.Common.{
  ℕ, ◌+◌, ◌≤◌, ◌≡◌, refl, sym, ◌∙◌, true, List, [], ◌∷◌, ◌++◌, append-nil, append_assoc, All,
  le→leb, Returns, length,
}
use i_dcu_io_t.Plcs.Fields.{Field}
use i_dcu_io_t.Plcs.Messages.{message}
use i_dcu_io_t.Etri.{Info, System, Server, report, send, serve, serve_all}

-- The queue as the server takes it at one time: the drivers send messages of type 1.
abbrev pub taken_at : ℕ → List (List ℕ) → List (ℕ × ℕ × List ℕ)
taken_at now [] = []
taken_at now (m ∷ queue) = (1, now, m) ∷ taken_at now queue

abbrev pub reports : Info → ℕ → List (List ℕ) → List (List ℕ)
reports i now [] = []
reports i now (m ∷ queue) = report i now m ∷ reports i now queue

abbrev pub messages : ℕ → List (List Field) → List (List ℕ)
messages now [] = []
messages now (fs ∷ lines) = message now fs ∷ messages now lines

-- The system takes what is sent on an open connection.
abbrev pub Takes : System → Type 0
Takes w = (k : ℕ) → w.takes k ≡ true

-- Messages on an open connection that takes all: their reports, in their order.
pub serve_all-taken :
    (w : System) (i : Info) (now : ℕ) (queue : List (List ℕ)) (s : Server)
    → Takes w
    → All (λ (m : List ℕ). length m ≤ 1024) queue
    → s.connected ≡ true
    → Returns
        (serve_all w i (taken_at now queue) s)
        (λ s'. (s'.sent ≡ s.sent ++ reports i now queue) × (s'.connected ≡ true))
unfolding serve_all serve send
serve_all-taken w i now [] s takes small open' = (s, refl, (sym (append-nil s.sent), open'))
serve_all-taken w i now (m ∷ queue) s takes small open' =
    rw (le→leb (length m) 1024 small.0, open', takes s.sends)
      (let next : Server = record s {
        connected = true;
        sends = s.sends + 1;
        sent = s.sent ++ (report i now m ∷ []);
      } in
        let (s', e, (all, still)) = serve_all-taken w i now queue next takes small.1 refl in
        (s', e, (all ∙ append_assoc s.sent (report i now m ∷ []) (reports i now queue), still)))
