-- ===== src/Process/Session.antt =====
-- What a process does with its transports, one step after the other, up to their destructors.
use dlms_transport.Prelude.{ℕ, List, [], ◌∷◌, ◌++◌, Option, none, some}
use dlms_transport.Os.{Os, Io, ◌>>=◌, return, at, put}
use dlms_transport.Server.Listener.{accept}
use dlms_transport.Process.Objects.{
  Object, listener, connection, Recipe, ObjectCall, construct, call_object, destroy,
}

-- Objects go by the order of their construction. `accepts i k`: the listener `i` accepts into the
-- pointer `k`.
pub data Step : Type 0 where
  constructs : Recipe → Step
  calls : ℕ → ObjectCall → Step
  accepts : ℕ → ℕ → Step
  destroys : ℕ → Step

module _ (os : Os) where
  unfoldable pub call_at : ℕ → ObjectCall → List Object → Option Object → Io (List Object)
  call_at i c l none = return l
  call_at i c l (some x) = do next ← call_object os c x; return (put i next l)

  unfoldable pub destroy_at : ℕ → List Object → Option Object → Io (List Object)
  destroy_at i l none = return l
  destroy_at i l (some x) = do next ← destroy os x; return (put i next l)

  unfoldable pub accept_at : ℕ → List Object → Option Object → Option Object → Io (List Object)
  accept_at k l (some (listener t)) (some (connection c)) = do
    accepted ← accept os c t
    return (put k (connection accepted.1) l)
  accept_at k l _ _ = return l

  unfoldable pub step : Step → List Object → Io (List Object)
  step (constructs r) l = return (l ++ construct r ∷ [])
  step (calls i c) l = call_at i c l (at i l)
  step (accepts i k) l = accept_at k l (at i l) (at k l)
  step (destroys i) l = destroy_at i l (at i l)

  unfoldable pub run : List Step → List Object → Io (List Object)
  run [] l = return l
  run (s ∷ ss) l = do next ← step s l; run ss next

  -- All objects that are left are destroyed at the end.
  unfoldable pub destroy_all : List Object → Io (List Object)
  destroy_all [] = return []
  destroy_all (x ∷ l) = do rest ← destroy_all l; first ← destroy os x; return (first ∷ rest)

  unfoldable pub lifetime : List Step → Io (List Object)
  lifetime ss = do l ← run ss []; destroy_all l
