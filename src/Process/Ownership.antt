-- ===== src/Process/Ownership.antt =====
-- The transports of a process never share, leak, or use a closed descriptor.
use mathlib.Core.Path.{subst}
use dlms_transport.Prelude.{
  ℕ, zero, suc, ℤ, ◌≡◌, ◌≢◌, refl, sym, ap, ◌∙◌, Bool, false, map, List, [], ◌∷◌, ◌++◌, Option,
  none, some,
}
use dlms_transport.Os.{
  Os, History, live, IsClean, IsPosix, Ends, Ends-return, Ends-bind, Ends-then, Ends-weaken, Owner,
  Owner-closed, at, put, Handle, closed_handle, others, to_ℕ, Owners, Owners-Owner, Owners-put,
  Owners-append, Owners-none, Owners-closed, Owners-tail, Owners-cons, AllClosed, other-live,
}
use dlms_transport.Tcp.Ownership.{step-Owns as tcp_step-Owns, close_stream-Owns}
use dlms_transport.Udp.Ownership.{step-Owns as udp_step-Owns, close_transport-Owns}
use dlms_transport.Serial.Ownership.{step-Owns as serial_step-Owns, close_port-Owns}
use dlms_transport.Server.Ownership.{
  server_step-Owns, close_server-Owns, connection_step-Owns, reset_connection-Owns, accept-Owns,
}
use dlms_transport.Tcp.Stream.{new_stream}
use dlms_transport.Udp.Transport.{new_transport}
use dlms_transport.Serial.Port.{new_port}
use dlms_transport.Server.Listener.{new_server}
use dlms_transport.Process.Objects.{
  Object, client, datagrams, serial, listener, connection, gone, Recipe, makes_client,
  makes_datagrams, makes_serial, makes_listener, makes_connection, ObjectCall, on_client,
  on_datagrams, on_serial, on_listener, on_connection, construct, handle_of, call_object, destroy,
}
use dlms_transport.Process.Session.{
  Step, constructs, calls, accepts, destroys, call_at, destroy_at, accept_at, step, run,
  destroy_all, lifetime,
}

abbrev handles : List Object → List Handle
handles = map handle_of

abbrev OwnsObject : (ℤ → Bool) → Object → History → Type 0
OwnsObject base x h = Owner base (handle_of x).0 (handle_of x).1 h

module _ (os : Os) (base : ℤ → Bool) where
  call_object-Owns :
      IsPosix os
      → (c : ObjectCall) (x : Object) (h : History) → OwnsObject base x h
      → Ends (call_object os c x) h (λ r k. OwnsObject base r k)
  unfolding call_object
  call_object-Owns posix (on_client c) (client t) h o =
      Ends-bind (tcp_step-Owns os base posix c t h o) λ r k p. Ends-return _ p
  call_object-Owns posix (on_datagrams c) (datagrams t) h o =
      Ends-bind (udp_step-Owns os base posix c t h o) λ r k p. Ends-return _ p
  call_object-Owns posix (on_serial c) (serial t) h o =
      Ends-bind (serial_step-Owns os base posix c t h o) λ r k p. Ends-return _ p
  call_object-Owns posix (on_listener c) (listener t) h o =
      Ends-bind (server_step-Owns os base posix c t h o) λ r k p. Ends-return _ p
  call_object-Owns posix (on_connection c) (connection p) h o =
      Ends-bind (connection_step-Owns os base c p h o) λ r k q. Ends-return _ q
  call_object-Owns posix _ x h o = Ends-return _ o

  destroy-Owns :
      (x : Object) (h : History)
      → OwnsObject base x h
      → Ends (destroy os x) h (λ r k. OwnsObject base r k × ((handle_of r).1 ≡ false))
  unfolding destroy
  destroy-Owns (client t) h o =
      Ends-bind (close_stream-Owns os base t h o)
        λ r k p. Ends-return _ (Owner-closed p.0 p.1, refl)
  destroy-Owns (datagrams t) h o =
      Ends-bind (close_transport-Owns os base t h o)
        λ r k p. Ends-return _ (Owner-closed p.0 p.1, refl)
  destroy-Owns (serial t) h o =
      Ends-bind (close_port-Owns os base t h o) λ r k p. Ends-return _ (Owner-closed p.0 p.1, refl)
  destroy-Owns (listener t) h o =
      Ends-bind (close_server-Owns os base t h o)
        λ r k p. Ends-return _ (Owner-closed p.0 p.1, refl)
  destroy-Owns (connection c) h o =
      Ends-then (reset_connection-Owns os base c h o) λ k p. Ends-return _ (p, refl)
  destroy-Owns gone h o = Ends-return _ (o, refl)

at-map :
    (i : ℕ) (x : Object) (l : List Object) → at i l ≡ some x → at i (handles l) ≡ some (handle_of x)
unfolding at
at-map i x [] e = absurd (cc e)
at-map zero x (y ∷ l) e = let q : y ≡ x = cc e in rw q refl
at-map (suc i) x (y ∷ l) e = at-map i x l e

put-map :
    (i : ℕ) (x : Object) (l : List Object) → put i (handle_of x) (handles l) ≡ handles (put i x l)
unfolding put
put-map i x [] = refl
put-map zero x (y ∷ l) = refl
put-map (suc i) x (y ∷ l) = ap (◌∷◌ (handle_of y)) (put-map i x l)

map-append : (l : List Object) (x : Object) → handles l ++ handle_of x ∷ [] ≡ handles (l ++ x ∷ [])
map-append [] x = refl
map-append (y ∷ l) x = ap (◌∷◌ (handle_of y)) (map-append l x)

construct-closed : (r : Recipe) → handle_of (construct r) ≡ closed_handle
unfolding construct new_stream new_transport new_port new_server
construct-closed (makes_client options) = refl
construct-closed (makes_datagrams options) = refl
construct-closed (makes_serial options) = refl
construct-closed (makes_listener options) = refl
construct-closed makes_connection = refl

-- The objects of a process.
abbrev OwnersOf : (ℤ → ℕ) → List Object → History → Type 0
OwnersOf base l h = Owners base (handles l) h

module _ (os : Os) (base : ℤ → ℕ) where
  put-Owners :
      (i : ℕ) (x y : Object) (l : List Object) {h k : History}
      → OwnersOf base l h
      → at i l ≡ some x
      → OwnsObject (others (handle_of x) h) y k
      → OwnersOf base (put i y l) k
  put-Owners i x y l {k = k} w e q =
      subst (λ m. Owners base m k) (put-map i y l)
        (Owners-put i (handle_of x) (handle_of y) w (at-map i x l e) q)

  call_at-Owners :
      IsPosix os
      → (i : ℕ) (c : ObjectCall) (l : List Object) (o : Option Object) (h : History) → at i l ≡ o
      → OwnersOf base l h
      → Ends (call_at os i c l o) h (λ r k. OwnersOf base r k)
  unfolding call_at
  call_at-Owners posix i c l none h e w = Ends-return _ w
  call_at-Owners posix i c l (some x) h e w =
      Ends-bind
        (call_object-Owns os (others (handle_of x) h) posix c x h
          (Owners-Owner i (handle_of x) w (at-map i x l e)))
        λ next k p. Ends-return _ (put-Owners i x next l w e p)

  destroy_at-Owners :
      (i : ℕ) (l : List Object) (o : Option Object) (h : History)
      → at i l ≡ o
      → OwnersOf base l h
      → Ends (destroy_at os i l o) h (λ r k. OwnersOf base r k)
  unfolding destroy_at
  destroy_at-Owners i l none h e w = Ends-return _ w
  destroy_at-Owners i l (some x) h e w =
      Ends-bind
        (destroy-Owns os (others (handle_of x) h) x h
          (Owners-Owner i (handle_of x) w (at-map i x l e)))
        λ next k p. Ends-return _ (put-Owners i x next l w e p.0)

  accept_at-Owners :
      IsPosix os
      → (i k : ℕ) (l : List Object) (o p : Option Object) (h : History) → at i l ≡ o
      → at k l ≡ p
      → OwnersOf base l h
      → Ends (accept_at os k l o p) h (λ r m. OwnersOf base r m)
  unfolding accept_at
  accept_at-Owners posix i k l (some (listener t)) (some (connection c)) h a b w =
      Ends-bind
        (accept-Owns os (others (handle_of (connection c)) h) posix c t h
          (other-live i k _ _ w (at-map i _ l a) (at-map k _ l b) apart)
          (Owners-Owner k _ w (at-map k _ l b)))
        λ accepted m q. Ends-return _ (put-Owners k _ (connection accepted.1) l w b q)
    where
      apart : i ≢ k
      apart e = different (sym a ∙ ap (λ n. at n l) e ∙ b)
        where
          different : some (listener t) ≢ some (connection c)
          different q = cc q
  accept_at-Owners posix i k l _ _ h a b w = Ends-return _ w

  step-Owners :
      IsPosix os
      → (s : Step) (l : List Object) (h : History) → OwnersOf base l h
      → Ends (step os s l) h (λ r k. OwnersOf base r k)
  unfolding step
  step-Owners posix (constructs r) l h w = Ends-return _ (
      subst (λ m. Owners base m h) (map-append l (construct r))
        (rw (construct-closed r) (Owners-append w)))
  step-Owners posix (calls i c) l h w = call_at-Owners posix i c l (at i l) h refl w
  step-Owners posix (accepts i k) l h w =
      accept_at-Owners posix i k l (at i l) (at k l) h refl refl w
  step-Owners posix (destroys i) l h w = destroy_at-Owners i l (at i l) h refl w

  run-Owners :
      IsPosix os
      → (ss : List Step) (l : List Object) (h : History) → OwnersOf base l h
      → Ends (run os ss l) h (λ r k. OwnersOf base r k)
  unfolding run
  run-Owners posix [] l h w = Ends-return _ w
  run-Owners posix (s ∷ ss) l h w =
      Ends-bind (step-Owners posix s l h w) λ next k p. run-Owners posix ss next k p

module _ (os : Os) where
  destroy_all-Owners :
      (l : List Object) (base : ℤ → ℕ) (h : History)
      → OwnersOf base l h
      → Ends (destroy_all os l) h (λ r k. OwnersOf base r k × AllClosed (handles r))
  unfolding destroy_all at put
  destroy_all-Owners [] base h w = Ends-return _ (w, tt)
  destroy_all-Owners (x ∷ l) base h w =
      Ends-bind (destroy_all-Owners l _ h (Owners-tail w)) λ rest k p.
        let whole : OwnersOf base (x ∷ rest) k = Owners-cons w.flags.0 p.0 in
        Ends-bind
          (destroy-Owns os (others (handle_of x) k) x k (Owners-Owner 0 (handle_of x) whole refl))
          λ first m q.
            Ends-return _ (put-Owners os base 0 x first (x ∷ rest) whole refl q.0, (q.1, p.1))

-- Any number of TCP clients, UDP transports, serial transports, listeners and pointers to accepted
-- streams are constructed, called, accepted into and destroyed in any order, over any answers of a
-- POSIX system, from a log whose calls all work on descriptors in use; the objects that are left
-- are destroyed at the end. Then every system call was on a descriptor in use at that moment, no
-- descriptor was closed that another object still had, and exactly the descriptors are in use that
-- were in use at the start.
pub process_lifetime_releases :
    (os : Os)
    → IsPosix os
    → (ss : List Step) (h : History) → IsClean h
    → let after = (lifetime os ss h).1 in IsClean after × ((j : ℤ) → live after j ≡ live h j)
process_lifetime_releases os posix ss h c = ended.at
  where
    ended : Ends (lifetime os ss) h (λ r k. IsClean k × ((j : ℤ) → live k j ≡ live h j))
    ended =
        unfold lifetime in
        Ends-bind (run-Owners os (λ j. to_ℕ (live h j)) posix ss [] h (Owners-none h c)) λ l k w.
          Ends-weaken (destroy_all-Owners os l (λ j. to_ℕ (live h j)) k w)
            λ r m p. (p.0.clean, Owners-closed h p.0 p.1)
