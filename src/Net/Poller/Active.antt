-- ===== src/Net/Poller/Active.antt =====
-- Poll and __FillActiveChannels: the active channels are those whose entries `poll` reported.
use neconet.Prelude.{
  update, update_ne, update_self, ℕ, zero, suc, ◌<◌, ◌≡◌, refl, sym, ap, ap₂, ◌∙◌, ◌≢◌, true, false,
  List, [], ◌∷◌, some, none, Option, map, ok, Outcome, ◌>>=◌, arith, if◌then◌else◌, Bool-cases, inl,
  inr, ==_iff,
}
use neconet.Prelude.Int.{pos}
use neconet.Net.Channel.{Channel, Events, any_event}
use neconet.Net.Poller.{PollFd, fd_of, fill_active, mark_active}

-- The pointer of a registered channel, and 0 else.
abbrev pub pointer : Option ℕ → ℕ
pointer none = 0
pointer (some p) = p

module _ (m : ℕ → Option ℕ) where
  -- The entries with events: the channel and the events of each.
  abbrev pub active : List PollFd → List (ℕ × Events)
  active [] = []
  active (e ∷ r) =
      if any_event e.revents then (pointer (m (fd_of e.fd)), e.revents) ∷ active r else active r

  -- An entry with events at index `i` belongs to a registered channel with this index.
  abbrev pub IsReported : (ℕ → Channel) → ℕ → PollFd → Type 0
  IsReported heap i e =
      any_event e.revents ≡ true
      → (fd : ℕ) × (p : ℕ) × (e.fd ≡ pos fd)
        × (m fd ≡ some p)
        × ((heap p).fd ≡ fd)
        × ((heap p).index ≡ pos i)

  abbrev pub AllReported : (ℕ → Channel) → ℕ → List PollFd → Type 0
  AllReported heap i [] = Unit {0}
  AllReported heap i (e ∷ r) = IsReported heap i e × AllReported heap (suc i) r

-- The number of entries with events, which `poll` returns.
abbrev pub count_active : List PollFd → ℕ
count_active [] = 0
count_active (e ∷ r) = if any_event e.revents then suc (count_active r) else count_active r

-- Two heaps agree on the descriptors and indices.
pub record IsSame (heap heap' : ℕ → Channel) : Type 0 where
  pub fds : (q : ℕ) → (heap' q).fd ≡ (heap q).fd
  pub indices : (q : ℕ) → (heap' q).index ≡ (heap q).index

AllReported-same :
    (m : ℕ → Option ℕ) (heap heap' : ℕ → Channel) (i : ℕ) (r : List PollFd)
    → IsSame heap heap'
    → AllReported m heap i r
    → AllReported m heap' i r
AllReported-same m heap heap' i [] same h = tt
AllReported-same m heap heap' i (e ∷ r) same h = (
  λ a. let (fd, p, x, y, z, w) = h.0 a in (fd, p, x, y, same.fds p ∙ z, same.indices p ∙ w),
  AllReported-same m heap heap' (suc i) r same h.1,
)

-- Marking a channel changes its `revents` only.
abbrev marked : (ℕ → Channel) → ℕ → Events → ℕ → Channel
marked heap p events = update heap p (record (heap p) { revents = events })

marked-IsSame : (heap : ℕ → Channel) (p : ℕ) (events : Events) → IsSame heap (marked heap p events)
marked-IsSame heap p events = record { fds = fds; indices = indices }
  where
    fds : (q : ℕ) → (marked heap p events q).fd ≡ (heap q).fd
    fds q = ground (arith, ==_iff q p)

    indices : (q : ℕ) → (marked heap p events q).index ≡ (heap q).index
    indices q = ground (arith, ==_iff q p)

abbrev pub report : (ℕ → Channel) → List ℕ → List (ℕ × Events)
report heap found = map (λ p. (p, (heap p).revents)) found

-- What a pass from index `i` on gives.
pub record Filled (m : ℕ → Option ℕ) (heap : ℕ → Channel) (i : ℕ) (entries : List PollFd)
    (r : Outcome ((ℕ → Channel) × List ℕ)) : Type 0 where
  pub after : ℕ → Channel
  pub found : List ℕ
  pub result : r ≡ ok (after, found)
  pub reported : report after found ≡ active m entries
  pub same : IsSame heap after
  pub kept : (q k : ℕ) → (heap q).index ≡ pos k → k < i → after q ≡ heap q

mark_active-ok :
    (m : ℕ → Option ℕ) (heap : ℕ → Channel) (e : PollFd) (fd p : ℕ)
    → e.fd ≡ pos fd
    → m fd ≡ some p
    → (heap p).fd ≡ fd
    → mark_active e m heap ≡ ok (p, marked heap p e.revents)
unfolding mark_active
mark_active-ok m heap e fd p x y z = rw (x, mark_active) (rw y (rw ((==_iff _ fd).1 z)))

fill_active_skip :
    (m : ℕ → Option ℕ) (heap : ℕ → Channel) (k : ℕ) (e : PollFd) (r : List PollFd)
    → any_event e.revents ≡ false
    → fill_active k (e ∷ r) m heap ≡ fill_active k r m heap
unfolding fill_active
fill_active_skip m heap zero e r b = refl
fill_active_skip m heap (suc k) e r b = rw (b, fill_active) refl

fill_active_mark :
    (m : ℕ → Option ℕ) (heap heap' : ℕ → Channel) (k p : ℕ) (e : PollFd) (r : List PollFd)
    → any_event e.revents ≡ true
    → mark_active e m heap ≡ ok (p, heap')
    → fill_active (suc k) (e ∷ r) m heap
      ≡ (fill_active k r m heap' >>= λ (heap'', found). ok (heap'', p ∷ found))
unfolding fill_active
fill_active_mark m heap heap' k p e r a h = rw (a, fill_active) (rw h)

-- The head has no events.
Filled-skip :
    (m : ℕ → Option ℕ) (heap : ℕ → Channel) (i : ℕ) (e : PollFd) (r : List PollFd)
    → any_event e.revents ≡ false
    → Filled m heap (suc i) r (fill_active (count_active r) r m heap)
    → Filled m heap i (e ∷ r) (fill_active (count_active (e ∷ r)) (e ∷ r) m heap)
Filled-skip m heap i e r b f = record {
  after = f.after;
  found = f.found;
  result = rw b (fill_active_skip m heap (count_active r) e r b ∙ f.result);
  reported = rw b f.reported;
  same = f.same;
  kept = λ q k x h. f.kept q k x (omega arith);
}

-- The head has events, and its channel is marked.
Filled-mark :
    (m : ℕ → Option ℕ) (heap : ℕ → Channel) (i : ℕ) (e : PollFd) (r : List PollFd) (fd p : ℕ)
    → any_event e.revents ≡ true
    → e.fd ≡ pos fd
    → m fd ≡ some p
    → (heap p).fd ≡ fd
    → (heap p).index ≡ pos i
    → (let heap' = marked heap p e.revents in
        Filled m heap' (suc i) r (fill_active (count_active r) r m heap'))
    → Filled m heap i (e ∷ r) (fill_active (count_active (e ∷ r)) (e ∷ r) m heap)
Filled-mark m heap i e r fd p a x y z w f = record {
  after = f.after;
  found = p ∷ f.found;
  result = rw a (
      fill_active_mark m heap heap' (count_active r) p e r a (mark_active-ok m heap e fd p x y z)
      ∙ ap (λ o. o >>= λ (heap'', found). ok (heap'', p ∷ found)) f.result);
  reported = rw a (ap₂ ◌∷◌ (ap₂ (λ q v. (q, v)) (sym known) at_head) f.reported);
  same = record {
    fds = λ q. f.same.fds q ∙ step.fds q;
    indices = λ q. f.same.indices q ∙ step.indices q;
  };
  kept = λ q k u h.
      f.kept q k (step.indices q ∙ u) (omega arith) ∙ update_ne heap p _ q (apart q k u h);
}
  where
    heap' : ℕ → Channel
    heap' = marked heap p e.revents

    step : IsSame heap heap'
    step = marked-IsSame heap p e.revents

    known : pointer (m (fd_of e.fd)) ≡ p
    known = ap (λ v. pointer (m (fd_of v))) x ∙ ap pointer y

    at_head : (f.after p).revents ≡ e.revents
    at_head =
        ap (λ (c : Channel). c.revents)
          (f.kept p i (step.indices p ∙ w) (omega arith) ∙ update_self heap p _)

    apart : (q k : ℕ) → (heap q).index ≡ pos k → k < i → q ≢ p
    apart q k u h g =
        let v : pos k ≡ pos i = sym u ∙ ap (λ n. (heap n).index) g ∙ w in
        let n : k ≡ i = cc in omega arith

pub fill_active-Filled :
    (m : ℕ → Option ℕ) (heap : ℕ → Channel) (i : ℕ) (entries : List PollFd)
    → AllReported m heap i entries
    → Filled m heap i entries (fill_active (count_active entries) entries m heap)
unfolding fill_active
fill_active-Filled m heap i [] h = record {
  after = heap;
  found = [];
  result = refl;
  reported = refl;
  same = record { fds = λ q. refl; indices = λ q. refl };
  kept = λ q k x l. refl;
}
fill_active-Filled m heap i (e ∷ r) h = elim (Bool-cases (any_event e.revents)) [
  | inl a ↦
      let (fd, p, x, y, z, w) = h.0 a in
      let heap' = marked heap p e.revents in
      Filled-mark m heap i e r fd p a x y z w (
        fill_active-Filled m heap' (suc i) r
          (AllReported-same m heap heap' (suc i) r (marked-IsSame heap p e.revents) h.1))
  | inr b ↦ Filled-skip m heap i e r b (fill_active-Filled m heap (suc i) r h.1)
]
