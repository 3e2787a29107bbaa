-- ===== src/Net/Poller/Fixtures.antt =====
-- A poller with two channels, for tests.
use neconet.Prelude.{ℕ, zero, suc, refl, [], none}
use neconet.Prelude.Int.{pos}
use neconet.Net.Channel.{Channel, init, none_event, read_event}
use neconet.Net.Poller.{Poller, PollFd}
use neconet.Net.Poller.Inv.{IsListed, IsValid}
use neconet.Net.Poller.Register.{added, added-IsValid}

-- Pointer 1 is a channel for descriptor 5, any other one a channel for descriptor 6. Both want to read.
abbrev pub channels : ℕ → Channel
channels (suc zero) = record (init 5) { events = read_event }
channels p = record (init 6) { events = read_event }

abbrev pub empty : Poller
empty = record { poll_fds = []; channels_map = λ fd. none; heap = channels }

pub empty-IsValid : IsValid empty
empty-IsValid = record { listed = λ fd p m. cc; owned = λ i e h. cc }

abbrev pub one : Poller
one = added empty 1

abbrev pub two : Poller
two = added one 2

pub one-IsValid : IsValid one
unfolding init
one-IsValid = added-IsValid empty 1 empty-IsValid 0 refl refl

pub two-IsValid : IsValid two
unfolding init
two-IsValid = added-IsValid one 2 one-IsValid 0 refl refl

abbrev pub entry_five : PollFd
entry_five = record { fd = pos 5; events = read_event; revents = none_event }

pub five-IsListed : IsListed two 5 1 0 entry_five
unfolding init
five-IsListed = record { own_fd = refl; own_index = refl; entry = refl; entry_fd = refl }
