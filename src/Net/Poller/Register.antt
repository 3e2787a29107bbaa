-- ===== src/Net/Poller/Register.antt =====
-- UpdateChannel of a new channel.
use neconet.Prelude.{
  update_self, update_ne, update, ℕ, ◌<◌, ◌≡◌, refl, sym, ap, ◌∙◌, ◌≢◌, true, [], ◌∷◌, ◌++◌, none,
  some, length, get_elem?, ok, arith, length-append, get_elem?-append_left, get_elem?-append_last,
  lt_of_get_elem?,
}
use mathlib.Core.Path.{subst₂}
use native.Mathlib.Decide.{dec_lt, ℕ_discrete}
use neconet.Prelude.Int.{ℤ, pos, negsuc}
use neconet.Net.Channel.{Channel, none_event}
use neconet.Net.Poller.{Poller, PollFd, fd_of, add_entry, update_channel, watched}
use neconet.Net.Poller.Inv.{IsListed, IsListed-keep, IsValid}

pub watched-fd_of : (z : ℤ) (n : ℕ) → fd_of z ≡ n → watched z n ≡ true
watched-fd_of (pos m) n e = ground arith
watched-fd_of (negsuc m) n e = ground arith

module _ (s : Poller) (p : ℕ) where
  abbrev pub new_entry : PollFd
  new_entry = record { fd = pos (s.heap p).fd; events = (s.heap p).events; revents = none_event }

  abbrev pub indexed : Channel
  indexed = record (s.heap p) { index = pos (length s.poll_fds) }

  abbrev pub added : Poller
  added = record s {
    poll_fds = s.poll_fds ++ (new_entry ∷ []);
    heap = update s.heap p indexed;
    channels_map = update s.channels_map (s.heap p).fd (some p);
  }

  add_entry-ok : s.channels_map (s.heap p).fd ≡ none → add_entry s p ≡ ok added
  unfolding add_entry
  add_entry-ok h = ground arith

  -- The new channel is listed in the last entry.
  added_listed_self : IsListed added (s.heap p).fd p (length s.poll_fds) new_entry
  added_listed_self = record {
    own_fd = ap (λ (c : Channel). c.fd) (update_self s.heap p _);
    own_index = ap (λ (c : Channel). c.index) (update_self s.heap p _);
    entry = get_elem?-append_last s.poll_fds new_entry;
    entry_fd = refl;
  }

  added_listed_other :
      (k : ℕ)
      → (s.heap p).index ≡ negsuc k
      → (fd q i : ℕ) (e : PollFd) → IsListed s fd q i e
      → IsListed added fd q i e
  added_listed_other k fresh fd q i e l =
      IsListed-keep s added fd q i e (ap (λ (c : Channel). c.fd) same)
        (ap (λ (c : Channel). c.index) same)
        (get_elem?-append_left s.poll_fds (new_entry ∷ []) i
          (lt_of_get_elem? s.poll_fds i e l.entry))
        l
    where
      other : q ≢ p
      other h =
          let x : pos i ≡ negsuc k = sym l.own_index ∙ ap (λ r. (s.heap r).index) h ∙ fresh in cc

      same : added.heap q ≡ s.heap q
      same = update_ne s.heap p _ q other

  module _ (v : IsValid s) (k : ℕ) (fresh : (s.heap p).index ≡ negsuc k) where
    added_listed :
        (fd q : ℕ)
        → added.channels_map fd ≡ some q
        → (i : ℕ) × (e : PollFd) × IsListed added fd q i e
    added_listed fd q h = elim (ℕ_discrete fd (s.heap p).fd) [
      | yes same ↦ (length s.poll_fds, new_entry, first same)
      | no other ↦ later (v.listed fd q (sym (update_ne s.channels_map _ _ fd other) ∙ h))
    ]
      where
        first : fd ≡ (s.heap p).fd → IsListed added fd q (length s.poll_fds) new_entry
        first same =
            let e : some p ≡ some q =
              sym (update_self s.channels_map (s.heap p).fd (some p))
              ∙ ap added.channels_map (sym same)
              ∙ h in
            let here : p ≡ q = cc in
            subst₂ (λ x y. IsListed added x y (length s.poll_fds) new_entry) (sym same) here
              added_listed_self

        later :
            ((i : ℕ) × (e : PollFd) × IsListed s fd q i e)
            → (i : ℕ) × (e : PollFd) × IsListed added fd q i e
        later (i, e, l) = (i, e, added_listed_other k fresh fd q i e l)

    module _ (absent : s.channels_map (s.heap p).fd ≡ none) where
      owned_before :
          (i : ℕ) (e : PollFd)
          → ((q : ℕ) × (s.channels_map (fd_of e.fd) ≡ some q) × ((s.heap q).index ≡ pos i))
          → (q : ℕ) × (added.channels_map (fd_of e.fd) ≡ some q) × ((added.heap q).index ≡ pos i)
      owned_before i e (q, m, x) = (
        q,
        update_ne s.channels_map _ _ (fd_of e.fd) elsewhere ∙ m,
        ap (λ (c : Channel). c.index) (update_ne s.heap p _ q other) ∙ x,
      )
        where
          elsewhere : fd_of e.fd ≢ (s.heap p).fd
          elsewhere h = let y : some q ≡ none = sym m ∙ ap s.channels_map h ∙ absent in cc

          other : q ≢ p
          other h = let y : pos i ≡ negsuc k = sym x ∙ ap (λ r. (s.heap r).index) h ∙ fresh in cc

      added_owned :
          (i : ℕ) (e : PollFd)
          → get_elem? added.poll_fds i ≡ some e
          → (q : ℕ) × (added.channels_map (fd_of e.fd) ≡ some q) × ((added.heap q).index ≡ pos i)
      added_owned i e h = elim (dec_lt i (length s.poll_fds)) [
        | yes before ↦
            owned_before i e (v.owned i e (sym (get_elem?-append_left s.poll_fds _ i before) ∙ h))
        | no behind ↦ at_end behind
      ]
        where
          at_end :
              ¬ (i < length s.poll_fds)
              → (q : ℕ) × (added.channels_map (fd_of e.fd) ≡ some q)
                × ((added.heap q).index ≡ pos i)
          at_end behind =
              let l : i ≡ length s.poll_fds = omega (
                arith,
                lt_of_get_elem? added.poll_fds i e h,
                length-append s.poll_fds (new_entry ∷ []),
              ) in
              let n : some new_entry ≡ some e =
                sym (get_elem?-append_last s.poll_fds new_entry)
                ∙ ap (get_elem? added.poll_fds) (sym l)
                ∙ h in
              let e_new : new_entry ≡ e = cc in
              (
                p,
                ap (λ (f : PollFd). added.channels_map (fd_of f.fd)) (sym e_new)
                    ∙ update_self s.channels_map (s.heap p).fd (some p),
                ap (λ (c : Channel). c.index) (update_self s.heap p indexed) ∙ ap pos (sym l),
              )

      pub added-IsValid : IsValid added
      added-IsValid = record { listed = added_listed; owned = added_owned }

-- In a valid poller, `UpdateChannel` of a channel with no index, whose descriptor is not
-- registered, gives it an entry with its interest at the end and keeps the poller valid.
pub update_channel_adds :
    (s : Poller) (p k : ℕ)
    → IsValid s
    → (s.heap p).index ≡ negsuc k
    → s.channels_map (s.heap p).fd ≡ none
    → (t : Poller) × (update_channel s p ≡ ok t)
      × IsValid t
      × (t.channels_map (s.heap p).fd ≡ some p)
      × (t.poll_fds ≡ s.poll_fds ++ (new_entry s p ∷ []))
      × (t.channels_map ≡ update s.channels_map (s.heap p).fd (some p))
unfolding update_channel
update_channel_adds s p k v fresh absent = (
  added s p,
  rw (fresh, update_channel) (add_entry-ok s p absent),
  added-IsValid s p v k fresh absent,
  update_self s.channels_map _ _,
  refl,
  refl,
)
