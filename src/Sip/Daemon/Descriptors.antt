-- ===== src/Sip/Daemon/Descriptors.antt =====
-- Open descriptors and allocated blocks, over the calls of `sip_daemon_init`, src/sip_daemon.c.
use sentry_peer.Base.{
  ℕ, ◌+◌, ◌≡◌, Option, none, some, List, [], ◌∷◌, arith, count, hit, hit_self, remove,
  remove-Removes, Removes,
}
use sentry_peer.World.{
  World, Env, Stop, bad_write, bad_free, done, stopped, malloc, free, call, emit,
}
use sentry_peer.World.Calls.{Call, freeaddrinfo, close, returned}
use sentry_peer.World.Ends.{Ends, ended, Holding}
use sentry_peer.Sip.Daemon.Setup.{Network, Daemon, returned_by, ask_descriptor}

abbrev pub opened_by : Call → List ℕ
opened_by (returned fd) = fd ∷ []
opened_by _ = []

abbrev pub closed_by : Call → List ℕ
closed_by (close fd) = fd ∷ []
closed_by _ = []

-- How often a descriptor was returned, and closed, among some calls.
abbrev pub times_opened : ℕ → List Call → ℕ
times_opened a [] = 0
times_opened a (c ∷ tr) = count a (opened_by c) + times_opened a tr

abbrev pub times_closed : ℕ → List Call → ℕ
times_closed a [] = 0
times_closed a (c ∷ tr) = count a (closed_by c) + times_closed a tr

-- Since some world, the descriptors of a list were opened and not closed, and the blocks of another
-- list are all that is allocated.
pub record Open (start : World) (fds bs : List ℕ) (w : World) : Type 0 where
  pub heap : Holding bs w
  pub balance :
      (a : ℕ)
      → times_opened a w.trace + times_closed a start.trace
        ≡ times_opened a start.trace + times_closed a w.trace + count a fds

abbrev pub sockets_of : Option Daemon → List ℕ
sockets_of none = []
sockets_of (some d) = d.socket_listen_tcp ∷ d.socket_listen_udp ∷ []

abbrev pub and_also : Option ℕ → List ℕ → List ℕ
and_also none fds = fds
and_also (some fd) fds = fd ∷ fds

-- A write past the end of a set of descriptors.
abbrev pub Overruns : Stop → Type 0
Overruns bad_write = Unit {0}
Overruns _ = ⊥

abbrev pub Opens : World → List ℕ → Option Daemon → World → Type 0
Opens start bs o w = Open start (sockets_of o) bs w

module _ (start : World) where
  pub call-Open :
      (env : Env) (c : Call) {fds bs : List ℕ} {w : World}
      → opened_by c ≡ []
      → closed_by c ≡ []
      → Open start fds bs w
      → Ends Overruns (λ _ w'. Open start fds bs w') (call env c w)
  unfolding call
  call-Open env c {fds} o k h = ended (record {
    heap = record { same = h.heap.same };
    balance = λ a. rw (o, k) (omega (arith, h.balance a));
  })

  pub close-Open :
      (fd : ℕ) {fds : List ℕ} (rest : List ℕ) {bs : List ℕ} {w : World}
      → ((a : ℕ) → count a fds ≡ hit fd a + count a rest)
      → Open start fds bs w
      → Ends Overruns (λ _ w'. Open start rest bs w') (emit (close fd) w)
  unfolding emit
  close-Open fd rest out h = ended (record {
    heap = record { same = h.heap.same };
    balance = λ a. omega (arith, h.balance a, out a);
  })

  pub info-Open :
      {fds bs : List ℕ} {w : World}
      → Open start fds bs w
      → Ends Overruns (λ info w'. Open start fds (info.block ∷ bs) w') (malloc {A = Unit {0}} tt w)
  unfolding malloc
  info-Open h =
      ended
        (record { heap = record { same = λ a. omega (arith, h.heap.same a) }; balance = h.balance })

  pub free-Open :
      (b : ℕ) {xs : List ℕ} (ys : List ℕ) {w : World} {fds : List ℕ}
      → ((a : ℕ) → count a xs ≡ hit b a + count a ys)
      → Open start fds xs w
      → Ends Overruns (λ _ w'. Open start fds ys w') (free b w)
  unfolding free
  free-Open b {xs} ys {w} {fds} out h = freed (remove b w.live) (remove-Removes b w.live)
    where
      freed :
          (r : Option (List ℕ))
          → Removes b w.live r
          → Ends Overruns
              (λ _ w'. Open start fds ys w')
              (elim r [
                | none ↦ stopped bad_free w
                | some live ↦ done tt (record w { live = live })
              ])
      freed none gone = absurd (omega (arith, h.heap.same b, out b, gone, hit_self b))
      freed (some live) left = ended (record {
        heap = record { same = λ a. omega (arith, h.heap.same a, out a, left a) };
        balance = h.balance;
      })

  -- A descriptor that a call has returned is open from then on.
  answered-Open :
      (c : Call) (r : Option ℕ) {fds bs : List ℕ} {w : World}
      → opened_by c ≡ []
      → closed_by c ≡ []
      → Open start fds bs w
      → Open start (and_also r fds) bs (returned_by r (record w { trace = c ∷ w.trace }))
  unfolding returned_by
  answered-Open c none o k h = record {
    heap = record { same = h.heap.same };
    balance = λ a. rw (o, k) (omega (arith, h.balance a));
  }
  answered-Open c (some n) o k h = record {
    heap = record { same = h.heap.same };
    balance = λ a. rw (o, k) (omega (arith, h.balance a));
  }

  pub descriptor-Open :
      (net : Network) (c : Call) {fds bs : List ℕ} {w : World}
      → opened_by c ≡ []
      → closed_by c ≡ []
      → Open start fds bs w
      → Ends Overruns (λ r w'. Open start (and_also r fds) bs w') (ask_descriptor net c w)
  unfolding ask_descriptor
  descriptor-Open net c {w = w} o k h = ended (answered-Open c (net.descriptor w.trace c) o k h)

pub freed_nothing :
    (start : World) {fds bs : List ℕ} {w : World}
    → Open start fds bs w
    → Ends Overruns (λ _ w'. Open start fds bs w') (emit freeaddrinfo w)
unfolding emit
freed_nothing start h =
    ended
      (record { heap = record { same = h.heap.same }; balance = λ a. omega (arith, h.balance a) })
