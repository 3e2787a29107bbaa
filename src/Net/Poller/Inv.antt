-- ===== src/Net/Poller/Inv.antt =====
-- The invariant of CPoller: the map, the entries and the indices of the channels agree.
use neconet.Prelude.{ℕ, ◌≡◌, ◌∙◌, some, get_elem?}
use neconet.Prelude.Int.{pos}
use neconet.Net.Poller.{Poller, PollFd, fd_of}

-- The channel `p` is registered under `fd`, and entry `i` is its own.
pub record IsListed (s : Poller) (fd p i : ℕ) (e : PollFd) : Type 0 where
  pub own_fd : (s.heap p).fd ≡ fd
  pub own_index : (s.heap p).index ≡ pos i
  pub entry : get_elem? s.poll_fds i ≡ some e
  pub entry_fd : fd_of e.fd ≡ fd

-- Every registered channel has an entry, and every entry a registered channel.
pub record IsValid (s : Poller) : Type 0 where
  pub listed :
      (fd p : ℕ) → s.channels_map fd ≡ some p → (i : ℕ) × (e : PollFd) × IsListed s fd p i e
  pub owned :
      (i : ℕ) (e : PollFd)
      → get_elem? s.poll_fds i ≡ some e
      → (p : ℕ) × (s.channels_map (fd_of e.fd) ≡ some p) × ((s.heap p).index ≡ pos i)

-- A change elsewhere leaves a channel listed.
pub IsListed-keep :
    (s t : Poller) (fd p i : ℕ) (e : PollFd)
    → (t.heap p).fd ≡ (s.heap p).fd
    → (t.heap p).index ≡ (s.heap p).index
    → get_elem? t.poll_fds i ≡ get_elem? s.poll_fds i
    → IsListed s fd p i e
    → IsListed t fd p i e
IsListed-keep s t fd p i e a b c l = record {
  own_fd = a ∙ l.own_fd;
  own_index = b ∙ l.own_index;
  entry = c ∙ l.entry;
  entry_fd = l.entry_fd;
}
