-- ===== src/Net/Poller/Ignored.antt =====
-- SetEnableReading, SetEnableWriting, DisableWriting and DisableAll of a registered channel.
use neconet.Prelude.{
  update, update_ne, update_self, ℕ, ◌≡◌, refl, sym, ap, ap₂, ◌∙◌, List, [], ◌∷◌, some, get_elem?,
  set, subst, ok, if◌then◌else◌, Bool, true, false,
}
use native.Mathlib.Decide.{ℕ_discrete}
use neconet.Prelude.Int.{negsuc}
use neconet.Net.Channel.{Channel, none_event, is_none_event, any_event}
use neconet.Net.Poller.{
  Poller, PollFd, fd_of, update_channel, Interest, enable_reading, enable_writing, disable_writing,
  disable_all, interest, set_interest, set_interests,
}
use neconet.Net.Poller.Inv.{IsListed, IsListed-keep, IsValid}
use neconet.Net.Poller.Update.{changed, changed_entry, fd_of-changed_entry, update_channel_changes}

-- Writing the interest changes neither descriptor nor index.
fd-interest : (op : Interest) (c : Channel) → (interest op c).fd ≡ c.fd
unfolding interest
fd-interest enable_reading c = refl
fd-interest enable_writing c = refl
fd-interest disable_writing c = refl
fd-interest disable_all c = refl

index-interest : (op : Interest) (c : Channel) → (interest op c).index ≡ c.index
unfolding interest
index-interest enable_reading c = refl
index-interest enable_writing c = refl
index-interest disable_writing c = refl
index-interest disable_all c = refl

module _ (op : Interest) (s : Poller) (p : ℕ) where
  abbrev pub before : Poller
  before = record s { heap = update s.heap p (interest op (s.heap p)) }

  pub before_fd : (q : ℕ) → (before.heap q).fd ≡ (s.heap q).fd
  before_fd q = elim (ℕ_discrete q p) [
    | yes h ↦
        ap (λ r. (before.heap r).fd) h
        ∙ ap (λ (c : Channel). c.fd) (update_self s.heap p _)
        ∙ fd-interest op (s.heap p)
        ∙ ap (λ r. (s.heap r).fd) (sym h)
    | no h ↦ ap (λ (c : Channel). c.fd) (update_ne s.heap p _ q h)
  ]

  pub before_index : (q : ℕ) → (before.heap q).index ≡ (s.heap q).index
  before_index q = elim (ℕ_discrete q p) [
    | yes h ↦
        ap (λ r. (before.heap r).index) h
        ∙ ap (λ (c : Channel). c.index) (update_self s.heap p _)
        ∙ index-interest op (s.heap p)
        ∙ ap (λ r. (s.heap r).index) (sym h)
    | no h ↦ ap (λ (c : Channel). c.index) (update_ne s.heap p _ q h)
  ]

  before_listed : (fd q i : ℕ) (e : PollFd) → IsListed s fd q i e → IsListed before fd q i e
  before_listed fd q i e l = IsListed-keep s before fd q i e (before_fd q) (before_index q) refl l

  pub before-IsValid : IsValid s → IsValid before
  before-IsValid v = record {
    listed = λ fd q m. let (i, e, l) = v.listed fd q m in (i, e, before_listed fd q i e l);
    owned = λ i e h. let (q, m, x) = v.owned i e h in (q, m, before_index q ∙ x);
  }

-- The entry that an operation leaves: it carries the new interest, and loses its descriptor if there
-- is none.
abbrev pub entry_after : Interest → Poller → ℕ → ℕ → PollFd → PollFd
entry_after op s fd p e = record {
  fd = if is_none_event (interest op (s.heap p)) then negsuc fd else e.fd;
  events = (interest op (s.heap p)).events;
  revents = none_event;
}

-- Each of the four operations on a channel registered in a valid poller succeeds, keeps the poller
-- valid and the channel registered in the same entry, and writes the new interest to the channel
-- and to the entry.
pub set_interest_lem :
    (op : Interest) (s : Poller) (fd p i : ℕ) (e : PollFd)
    → IsValid s
    → s.channels_map fd ≡ some p
    → IsListed s fd p i e
    → (t : Poller) × (set_interest op s p ≡ ok t)
      × IsValid t
      × (t.channels_map ≡ s.channels_map)
      × IsListed t fd p i (entry_after op s fd p e)
      × (t.heap p ≡ interest op (s.heap p))
      × (t.poll_fds ≡ set s.poll_fds i (entry_after op s fd p e))
unfolding set_interest
set_interest_lem op s fd p i e v m l = (
  changed b p i e own,
  updated.0,
  updated.1,
  refl,
  record {
    own_fd = kept.own_fd;
    own_index = kept.own_index;
    entry = updated.2 ∙ ap some same_entry;
    entry_fd =
        ap (λ (f : PollFd). fd_of f.fd) (sym same_entry)
        ∙ fd_of-changed_entry b p i e own
        ∙ kept.own_fd;
  },
  now,
  ap (set s.poll_fds i) same_entry,
)
  where
    b : Poller
    b = before op s p

    now : b.heap p ≡ interest op (s.heap p)
    now = update_self s.heap p _

    kept : IsListed b fd p i e
    kept = before_listed op s p fd p i e l

    own : IsListed b (b.heap p).fd p i e
    own = subst (λ x. IsListed b x p i e) (sym kept.own_fd) kept

    updated :
        (update_channel b p ≡ ok (changed b p i e own))
        × IsValid (changed b p i e own)
        × (get_elem? (changed b p i e own).poll_fds i ≡ some (changed_entry b p i e own))
    updated =
        update_channel_changes b p i e own (before-IsValid op s p v)
          (ap s.channels_map kept.own_fd ∙ m)

    same_entry : changed_entry b p i e own ≡ entry_after op s fd p e
    same_entry =
        ap₂
          (λ (c : Channel) (n : ℕ). record {
            fd = if is_none_event c then negsuc n else e.fd;
            events = c.events;
            revents = none_event;
          })
          now kept.own_fd

-- The channel `p` is registered under `fd`, with entry `i`, and `poll` ignores this entry.
pub record IsIgnored (s : Poller) (fd p i : ℕ) : Type 0 where
  pub valid : IsValid s
  pub registered : s.channels_map fd ≡ some p
  pub entry : PollFd
  pub listed : IsListed s fd p i entry
  pub ignored : entry.fd ≡ negsuc fd

if_same {ℓ} : {A : Type ℓ} (b : Bool) (x y z : A) → x ≡ z → y ≡ z → (if b then x else y) ≡ z
if_same true x y z p q = p
if_same false x y z p q = q

-- One operation on such a channel leaves the entry ignored.
set_interest-IsIgnored :
    (op : Interest) (s : Poller) (fd p i : ℕ)
    → IsIgnored s fd p i
    → (t : Poller) × (set_interest op s p ≡ ok t) × IsIgnored t fd p i
set_interest-IsIgnored op s fd p i g =
    let (t, e, v, m, l, _, _) =
      set_interest_lem op s fd p i g.entry g.valid g.registered g.listed in
    (
      t,
      e,
      record {
        valid = v;
        registered = ap (λ f. f fd) m ∙ g.registered;
        entry = entry_after op s fd p g.entry;
        listed = l;
        ignored = if_same (is_none_event (interest op (s.heap p))) _ _ _ refl g.ignored;
      },
    )

-- Once `poll` ignores the entry of a channel registered in a valid poller, it does so after any
-- sequence of SetEnableReading, SetEnableWriting, DisableWriting and DisableAll on it: all of them
-- succeed and keep the poller valid, but none gives the entry back its descriptor.
pub set_interests-IsIgnored :
    (ops : List Interest) (s : Poller) (fd p i : ℕ)
    → IsIgnored s fd p i
    → (t : Poller) × (set_interests ops s p ≡ ok t) × IsIgnored t fd p i
unfolding set_interests
set_interests-IsIgnored [] s fd p i g = (s, refl, g)
set_interests-IsIgnored (op ∷ ops) s fd p i g =
    let (t, e, h) = set_interest-IsIgnored op s fd p i g in
    let (u, f, k) = set_interests-IsIgnored ops t fd p i h in (u, rw e f, k)

pub none-disable_all : (c : Channel) → is_none_event (interest disable_all c) ≡ true
unfolding interest any_event
none-disable_all c = refl

pub any-disable_all : (c : Channel) → any_event (interest disable_all c).events ≡ false
unfolding interest any_event
any-disable_all c = refl

-- `DisableAll` of a registered channel makes `poll` ignore its entry.
pub disable_all-IsIgnored :
    (s : Poller) (fd p i : ℕ) (e : PollFd)
    → IsValid s
    → s.channels_map fd ≡ some p
    → IsListed s fd p i e
    → (t : Poller) × (set_interest disable_all s p ≡ ok t) × IsIgnored t fd p i
disable_all-IsIgnored s fd p i e v m l =
    let (t, r, w, n, k, _, _) = set_interest_lem disable_all s fd p i e v m l in
    (
      t,
      r,
      record {
        valid = w;
        registered = ap (λ f. f fd) n ∙ m;
        entry = entry_after disable_all s fd p e;
        listed = k;
        ignored = ap (λ b. if b then negsuc fd else e.fd) (none-disable_all (s.heap p));
      },
    )
