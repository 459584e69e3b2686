-- ===== src/Examples/Sessions.antt =====
-- The theorems on the arbiter, applied to a dial and to the entry of the relay.
use makera_cnc_controller.Base.{◌≡◌, refl, none, some, false}
use makera_cnc_controller.Machine.{Tracker, idle}
use makera_cnc_controller.Session.{
  Arbiter, new_arbiter, acquire_install, enter_relay, install, install_owner,
}
use makera_cnc_controller.Session.Gate.{Env, answered, fine}
use makera_cnc_controller.Session.Sockets.{
  without, Net, new_net, run_section, Allowed, Reachable, start, step, acquired, entered,
  relay_sockets_closed,
}
use makera_cnc_controller.Session.Sockets

-- The dial gives connection 1, and the machine reports that it is idle.
abbrev no_report : Tracker → Tracker
no_report t = t

abbrev calm : Env
calm = record {
  now = 50;
  max_age = 10;
  drift = no_report;
  injector = none;
  dial = some 1;
  query = answered (some idle);
  ending = fine;
}

abbrev relaying : Arbiter
relaying = (enter_relay new_arbiter).0

abbrev dialed_net : Net
dialed_net = run_section (Sockets.dialed 1) new_net

abbrev owning_net : Net
owning_net = run_section (acquired 1) dialed_net

dialed-Reachable : Reachable dialed_net
unfolding new_net new_arbiter Allowed run_section acquire_install install install_owner without
    enter_relay
dialed-Reachable = step (Sockets.dialed 1) new_net start refl

owning-Reachable : Reachable owning_net
unfolding new_net new_arbiter Allowed run_section acquire_install install install_owner without
    enter_relay
owning-Reachable = step (acquired 1) dialed_net dialed-Reachable refl

relaying-Reachable : Reachable (run_section entered owning_net)
unfolding new_net new_arbiter Allowed run_section acquire_install install install_owner without
    enter_relay
relaying-Reachable = step entered owning_net owning-Reachable refl

relay_sockets_closed_example : (run_section entered owning_net).open_conn 1 ≡ false
unfolding new_net new_arbiter Allowed run_section acquire_install install install_owner without
    enter_relay
relay_sockets_closed_example =
    relay_sockets_closed (run_section entered owning_net) relaying-Reachable 1 refl refl
