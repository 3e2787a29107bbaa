-- ===== src/Net/Poller/Update.antt =====
-- UpdateChannel of a registered channel: its entry is written again.
use neconet.Prelude.{
  ℕ, ◌≡◌, refl, sym, ap, ◌∙◌, ◌≢◌, true, some, get_elem?, set, if◌then◌else◌, ok, arith,
  lt_of_get_elem?, get_elem?-set_self, get_elem?-set_ne,
}
use native.Mathlib.Decide.{ℕ_discrete}
use neconet.Prelude.Int.{pos, negsuc}
use neconet.Net.Channel.{none_event, is_none_event}
use neconet.Net.Poller.{Poller, PollFd, fd_of, change_entry, update_channel, watched}
use neconet.Net.Poller.Inv.{IsListed, IsListed-keep, IsValid}
use neconet.Net.Poller.Register.{watched-fd_of}

module _ (s : Poller) (p i : ℕ) (e : PollFd) (l : IsListed s (s.heap p).fd p i e) where
  -- The entry afterwards.
  abbrev pub changed_entry : PollFd
  changed_entry = record {
    fd = if is_none_event (s.heap p) then negsuc (s.heap p).fd else e.fd;
    events = (s.heap p).events;
    revents = none_event;
  }

  abbrev pub changed : Poller
  changed = record s { poll_fds = set s.poll_fds i changed_entry }

  watched_own : watched e.fd (s.heap p).fd ≡ true
  watched_own = watched-fd_of e.fd (s.heap p).fd l.entry_fd

  change_entry-ok : s.channels_map (s.heap p).fd ≡ some p → change_entry s p i ≡ ok changed
  unfolding change_entry
  change_entry-ok m = ground (arith, l.entry, watched_own, lt_of_get_elem? s.poll_fds i e l.entry)

  pub fd_of-changed_entry : fd_of changed_entry.fd ≡ (s.heap p).fd
  fd_of-changed_entry = ground (arith, l.entry_fd)

  changed_same_fd : fd_of changed_entry.fd ≡ fd_of e.fd
  changed_same_fd = fd_of-changed_entry ∙ sym l.entry_fd

  -- What entry `j` is afterwards.
  get_elem?-changed : (j : ℕ) → j ≢ i → get_elem? changed.poll_fds j ≡ get_elem? s.poll_fds j
  get_elem?-changed j h = get_elem?-set_ne s.poll_fds changed_entry (λ q. h (sym q))

  get_elem?-changed_self : get_elem? changed.poll_fds i ≡ some changed_entry
  get_elem?-changed_self =
      get_elem?-set_self s.poll_fds i changed_entry (lt_of_get_elem? s.poll_fds i e l.entry)

  changed_listed :
      (fd q j : ℕ) (f : PollFd)
      → IsListed s fd q j f
      → (j' : ℕ) × (f' : PollFd) × IsListed changed fd q j' f'
  changed_listed fd q j f m = elim (ℕ_discrete j i) [
    | yes same ↦ (i, changed_entry, here same)
    | no other ↦ (j, f, IsListed-keep s changed fd q j f refl refl (get_elem?-changed j other) m)
  ]
    where
      here : j ≡ i → IsListed changed fd q i changed_entry
      here same =
          let g : some f ≡ some e = sym m.entry ∙ ap (get_elem? s.poll_fds) same ∙ l.entry in
          let f_e : f ≡ e = cc in
          record {
            own_fd = m.own_fd;
            own_index = m.own_index ∙ ap pos same;
            entry = get_elem?-changed_self;
            entry_fd = changed_same_fd ∙ ap (λ (g : PollFd). fd_of g.fd) (sym f_e) ∙ m.entry_fd;
          }

  changed_owned :
      IsValid s
      → (j : ℕ) (f : PollFd) → get_elem? changed.poll_fds j ≡ some f
      → (q : ℕ) × (s.channels_map (fd_of f.fd) ≡ some q) × ((s.heap q).index ≡ pos j)
  changed_owned v j f h = elim (ℕ_discrete j i) [
    | yes same ↦ here same
    | no other ↦ v.owned j f (sym (get_elem?-changed j other) ∙ h)
  ]
    where
      here : j ≡ i → (q : ℕ) × (s.channels_map (fd_of f.fd) ≡ some q) × ((s.heap q).index ≡ pos j)
      here same =
          let (q, m, x) = v.owned i e l.entry in
          let g : some changed_entry ≡ some f =
            sym get_elem?-changed_self ∙ ap (get_elem? changed.poll_fds) (sym same) ∙ h in
          let f_new : changed_entry ≡ f = cc in
          (
            q,
            ap s.channels_map (ap (λ (g : PollFd). fd_of g.fd) (sym f_new) ∙ changed_same_fd) ∙ m,
            x ∙ ap pos (sym same),
          )

  pub changed-IsValid : IsValid s → IsValid changed
  changed-IsValid v = record {
    listed = λ fd q m. let (j, f, n) = v.listed fd q m in changed_listed fd q j f n;
    owned = changed_owned v;
  }

  -- `UpdateChannel` of a registered channel writes its interest to its entry, which `poll` ignores from
  -- then on if there is none, changes nothing else and keeps the poller valid.
  pub update_channel_changes :
      IsValid s
      → s.channels_map (s.heap p).fd ≡ some p
      → (update_channel s p ≡ ok changed)
        × IsValid changed
        × (get_elem? changed.poll_fds i ≡ some changed_entry)
  unfolding update_channel
  update_channel_changes v m = (
    rw (l.own_index, update_channel) (change_entry-ok m),
    changed-IsValid v,
    get_elem?-changed_self,
  )
