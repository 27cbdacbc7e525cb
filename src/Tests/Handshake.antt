-- ===== src/Tests/Handshake.antt =====
-- The probe on the bus that answers with complements.
use oukitel_rt7_linux.Prelude.{
  ℕ, contains, ◌≡◌, ◌≤◌, refl, true, false, [], ◌++◌, some, ok, take, All, arith,
}
use oukitel_rt7_linux.Prelude.Exec.{◌>>=◌}
use oukitel_rt7_linux.Handshake.Endpoints.{find_endpoint_pair, first_candidate}
use oukitel_rt7_linux.Handshake.Endpoints.Chosen.{
  candidates, cdc_candidates, IsPairOf, find_endpoint_pair_lem, find_endpoint_pair-IsPairOf,
}
use oukitel_rt7_linux.Handshake.Wait.{wait_for_transport}
use oukitel_rt7_linux.Handshake.Wait.Found.{Finds, wait_for_transport-Ended}
use oukitel_rt7_linux.Handshake.Sync.{start_command, run_handshake}
use oukitel_rt7_linux.Handshake.Sync.Echo.{
  IsEchoing, bytes_written, good_replies, bytes_written-run_handshake, run_handshake-answered,
  run_handshake-echoing,
}
use oukitel_rt7_linux.Handshake.Probe.{Platform, main}
use oukitel_rt7_linux.Handshake.Traffic.{IsProbeCall}
use oukitel_rt7_linux.Handshake.Traffic.Whole.{main-OnlyProbes}
use oukitel_rt7_linux.Tests.Bus.{
  device, usb, usb-IsLawful, usb-IsTimed, pair, configuration, search_endpoint, world,
}

abbrev platform : Platform
platform = record { win32 = false; has_backend = true; set_option = some 0 }

echoing : IsEchoing usb pair
echoing = record { takes = λ value bus. refl; answers = λ value bus. refl }

chosen : find_endpoint_pair usb configuration ≡ ok pair
unfolding find_endpoint_pair search_endpoint
chosen = refl

main-OnlyProbes_example : All IsProbeCall (main usb platform 5 1 world).1.trace
main-OnlyProbes_example = main-OnlyProbes usb platform 5 1 world refl

bytes_written-run_handshake_example :
    (k : ℕ) × (k ≤ 4)
    × (bytes_written (run_handshake usb pair world).1.trace
        ≡ bytes_written world.trace ++ take k start_command)
bytes_written-run_handshake_example = bytes_written-run_handshake usb pair world

run_handshake-answered_example :
    (bytes_written (run_handshake usb pair world).1.trace
      ≡ bytes_written world.trace ++ start_command)
    × ((run_handshake usb pair world).1.printed ≡ [] ++ good_replies usb pair 1 start_command)
run_handshake-answered_example =
    run_handshake-answered usb pair world (run_handshake-echoing usb pair echoing world)

run_handshake-echoing_example : (run_handshake usb pair world).0 ≡ ok true
run_handshake-echoing_example = run_handshake-echoing usb pair echoing world

-- The device is found at once, by an enumeration that takes two ticks.
wait_for_transport-Ended_example : Finds usb 105 device (0, 102)
unfolding wait_for_transport contains ◌>>=◌
wait_for_transport-Ended_example = wait_for_transport-Ended usb usb-IsTimed 5 1 (omega arith) world

find_endpoint_pair_lem_example :
    find_endpoint_pair usb configuration
    ≡ first_candidate usb (cdc_candidates usb configuration ++ candidates usb configuration)
find_endpoint_pair_lem_example = find_endpoint_pair_lem usb configuration

find_endpoint_pair-IsPairOf_example : IsPairOf usb configuration pair
find_endpoint_pair-IsPairOf_example =
    find_endpoint_pair-IsPairOf usb usb-IsLawful configuration pair chosen
