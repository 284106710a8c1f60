-- ===== src/Epoll/Registered.antt =====
-- `lt` of c/recveive/src/epoll.cpp and the epoll set.
use rabbitmq_work.Base.{
  ◌≡◌, refl, ℤ, pos, negsuc, List, [], ◌∷◌, Bool, true, false, ◌&&◌, if◌then◌else◌, arith,
}
use rabbitmq_work.Amqp.{close, epoll_add, epoll_del}
use rabbitmq_work.Session.{Log, Oracle, called}
use rabbitmq_work.Epoll.{Ready, same_fd, lt}
use rabbitmq_work.Epoll.Kept.{Keeps, Finished, lt-Kept}

-- Whether `fd` is in the epoll set after this transcript.
abbrev pub registered : ℤ → ℤ → Log → Bool
registered ep fd [] = false
registered ep fd (called (epoll_add ep' fd' _) _ ∷ l) =
    if same_fd ep ep' && same_fd fd fd' then true else registered ep fd l
registered ep fd (called (epoll_del ep' fd') _ ∷ l) =
    if same_fd ep ep' && same_fd fd fd' then false else registered ep fd l
registered ep fd (_ ∷ l) = registered ep fd l

-- No `close` was made of a descriptor in the set.
abbrev pub IsClean : ℤ → Log → Type 0
IsClean ep [] = Unit
IsClean ep (called (close fd) _ ∷ l) = (registered ep fd l ≡ false) × IsClean ep l
IsClean ep (_ ∷ l) = IsClean ep l

pub same_fd_self : (fd : ℤ) → same_fd fd fd ≡ true
same_fd_self (pos n) = ground arith
same_fd_self (negsuc n) = ground arith

pub IsClean-Keeps : (ep : ℤ) → Keeps ep (IsClean ep)
IsClean-Keeps ep = record {
  by_accept = λ fd x l h. h;
  by_get_flags = λ fd x l h. h;
  by_set_flags = λ fd flags x l h. h;
  by_add = λ fd enable x l h. h;
  by_recv = λ fd n x l h. h;
  by_print = λ f args l h. h;
  by_drop = λ fd l h. rw (same_fd_self ep, same_fd_self fd) (refl, h);
  by_drop_saying = λ fd f l h. rw (same_fd_self ep, same_fd_self fd) (refl, h);
}

-- The level-triggered loop always comes to the end of the ready descriptors, and if no descriptor
-- was closed while it was in the epoll set before, none has been after.
pub lt-Finished :
    (ep : ℤ) (o : Oracle) (signal_fd listen_fd : ℤ) (evs : List Ready) (l : Log)
    → IsClean ep l
    → Finished (IsClean ep) (lt signal_fd ep listen_fd evs o l)
lt-Finished ep = lt-Kept ep (IsClean ep) (IsClean-Keeps ep)
