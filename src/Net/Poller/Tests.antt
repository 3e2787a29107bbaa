-- ===== src/Net/Poller/Tests.antt =====
-- CPoller with two channels: tests, and the theorems at inputs that meet their hypotheses.
use neconet.Prelude.{update, none, ℕ, ◌≡◌, refl, List, [], ◌∷◌, some, ok, true}
use neconet.Prelude.Int.{pos, negsuc}
use neconet.Net.Channel.{Events, init, none_event, read_event, any_event}
use neconet.Net.Poller.{
  Poller, PollFd, PollResult, enable_reading, enable_writing, disable_all, interest, remove_channel,
  set_interest, set_interests, poll,
}
use neconet.Net.Poller.Inv.{IsListed, IsValid}
use neconet.Net.Poller.Update.{changed-IsValid}
use neconet.Net.Poller.Ignored.{
  IsIgnored, before, before-IsValid, entry_after, set_interests-IsIgnored, disable_all-IsIgnored,
}
use neconet.Net.Poller.Fixtures.{two, two-IsValid, entry_five, five-IsListed}
use neconet.Net.Poller.Active.{report}
use neconet.Net.Poller.Poll.{PollContract, poll_lem}
use neconet.Net.Poller.Asked.{asked, request, set_interest-Refines}
use neconet.Net.Poller.Remove.{IsRemoved, remove_channel-IsRemoved}

silent_result : (t : Poller) × (set_interest disable_all two 1 ≡ ok t) × IsIgnored t 5 1 0
unfolding init
silent_result = disable_all-IsIgnored two 5 1 0 entry_five two-IsValid refl five-IsListed

-- The poller after `DisableAll` of channel 1.
silent : Poller
unfolding init
silent = silent_result.0

silent-IsIgnored : IsIgnored silent 5 1 0
unfolding silent
silent-IsIgnored = silent_result.2

set_interests-IsIgnored_example :
    (t : Poller) × (set_interests (enable_reading ∷ enable_writing ∷ []) silent 1 ≡ ok t)
    × IsIgnored t 5 1 0
set_interests-IsIgnored_example =
    set_interests-IsIgnored (enable_reading ∷ enable_writing ∷ []) silent 5 1 0 silent-IsIgnored

-- `poll` reports that descriptor 6 can be read.
abbrev readable_six : PollResult
readable_six = record {
  num_events = pos 1;
  entries =
      entry_five
      ∷ record { fd = pos 6; events = read_event; revents = record none_event { pollin = true } }
      ∷ [];
}

abbrev expected : List (ℕ × Events)
expected = (2, record none_event { pollin = true }) ∷ []

readable_six-PollContract : PollContract two.poll_fds readable_six
unfolding init any_event
readable_six-PollContract = record {
  answer = (refl, refl, (λ h. cc), (refl, refl, (λ h. (6, refl)), tt));
  count = refl;
}

poll_lem_example :
    (t : Poller) × (found : List ℕ) × (poll two readable_six ≡ ok (t, found))
    × IsValid t
    × (t.channels_map ≡ two.channels_map)
    × (report t.heap found ≡ expected)
unfolding any_event init
poll_lem_example = poll_lem two two-IsValid readable_six readable_six-PollContract

-- Channel 1 after `DisableAll`.
abbrev idle : Poller
idle = before disable_all two 1

idle-IsListed : IsListed idle 5 1 0 entry_five
unfolding init interest
idle-IsListed = record { own_fd = refl; own_index = refl; entry = refl; entry_fd = refl }

abbrev disabled : Poller
disabled = record idle {
  poll_fds =
      record { fd = negsuc 5; events = none_event; revents = none_event }
      ∷ record { fd = pos 6; events = read_event; revents = none_event }
      ∷ [];
}

disabled-IsValid : IsValid disabled
unfolding init interest any_event
disabled-IsValid =
    changed-IsValid idle 1 0 entry_five idle-IsListed (before-IsValid disable_all two 1 two-IsValid)

abbrev quiet_five : PollFd
quiet_five = record { fd = negsuc 5; events = none_event; revents = none_event }

disabled-IsListed : IsListed disabled 5 1 0 quiet_five
unfolding init interest
disabled-IsListed = record { own_fd = refl; own_index = refl; entry = refl; entry_fd = refl }

disabled_mapped : disabled.channels_map 5 ≡ some 1
unfolding init
disabled_mapped = refl

remove_channel-IsRemoved_example :
    (t : Poller) × (remove_channel disabled 1 ≡ ok t)
    × IsRemoved disabled disabled-IsValid 5 1 0 quiet_five disabled_mapped disabled-IsListed t
unfolding init interest any_event
remove_channel-IsRemoved_example =
    remove_channel-IsRemoved disabled disabled-IsValid 5 1 0 quiet_five disabled_mapped
      disabled-IsListed refl refl refl

set_interest-Refines_example :
    (t : Poller) × (set_interest enable_writing two 1 ≡ ok t)
    × IsValid t
    × (asked two.poll_fds 5 ≡ some (request entry_five))
    × ((g : ℕ)
        → asked t.poll_fds g
          ≡ update
              (asked two.poll_fds)
              5
              (some (request (entry_after enable_writing two 5 1 entry_five)))
              g)
unfolding init
set_interest-Refines_example =
    set_interest-Refines enable_writing two 5 1 0 entry_five two-IsValid refl five-IsListed

-- What is asked about the two descriptors.
asked_five : asked two.poll_fds 5 ≡ some (request entry_five)
unfolding init asked
asked_five = refl

asked_seven : asked two.poll_fds 7 ≡ none
unfolding init asked
asked_seven = refl
