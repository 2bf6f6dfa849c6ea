-- ===== src/Lib.antt =====
-- The firmware of a power monitor for the ESP32: a model of its core logic, and what holds of it.
--
-- The parts and how they interact. The sensors make a snapshot of voltages, currents and powers per
-- logical channel. The switch controller reads the snapshot on each tick, judges the conditions of
-- each switch's rule, times them, and drives pins and the outputs of an I2C expander; its rows are in
-- the settings. The battery profiles describe the batteries that the counters measure. The update
-- client polls a server, writes a new image and restarts the device. Errors and events go to two
-- rings in memory, and samples to a ring of bytes, whose entries are published in batches. Commands
-- come over Bluetooth, most of them behind a PIN.
--
-- Which file models which part (paths from the root of the repository):
--   Sensors       include/sensor_pod.h and the channel lookup of src/sensor_manager.cpp
--   Switches      src/switch_controller.cpp, include/switch_controller.h and the pins of
--                 include/boards: Rule (rules), Board (pins), System (state, set, pulse, auto),
--                 Conditions (readings and comparisons), Evaluate (the tick), Boot (the start)
--   Expander      src/pcf8574at.cpp
--   Settings      the rows of the switches in src/settings_manager.cpp, an interface with laws and an
--                 instance in Settings/Store
--   Ota           src/ota_client.cpp: State (data), Client (the state machine)
--   Reports       src/error_reporter.cpp
--   Events        src/event_log.cpp
--   Profiles      src/battery_profile.cpp with its rows of src/battery_nvs.cpp
--   Battery       src/battery_state.cpp, with the check of lengths of src/battery_nvs.cpp
--   Coulomb       src/coulomb_counter.cpp: the charge of each channel
--   Cycles        src/cycle_counter.cpp, the cycles and health of the batteries: State (data), Legs
--                 (the tick of one battery), Counter (all channels)
--   Ui            src/ui_manager.cpp: buttons and lamps
--   Identity      src/device_identity.cpp: the serial number and the count of crashes
--   Meter         src/bl0939_pod.cpp: the frames of the energy meters
--   Logger        src/data_logger.cpp: the ring of log entries in memory
--   Connectivity  src/connectivity_manager.cpp: Base64, Publish (the batches of the log that go to
--                 the broker), Wifi (the state machine of the network)
--   Provisioning  src/ble_provisioner.cpp: the PIN, the limits of rate, the access to commands, a text
--                 that is no JSON included
--   Floats        the operations and laws of `float`, and an instance in millionths for runs
--   Base          shared names, Boolean tests, lists, machine words, counted loops, rings
-- The children of these modules that are not named above hold the proofs, and the modules named Tests
-- hold runs and witnesses.
--
-- How state and operations correspond. The static variables of a file are one record, and an
-- operation is a function from record to record with the name of the function in the source;
-- helpers that are parts of a long function are named for what they do. A loop is structural
-- recursion or the counted loop `for_range`; two loops run on fuel: `pop_ring` on the size of the
-- ring, of which each round takes at least 27 bytes, and `drain` on the length of the file and one,
-- of which each round takes at least a byte. A clock reading is a number below 2 ^ 32 and
-- differences of readings wrap (`sub32`); counters of fixed width wrap where the source's do (`u8`,
-- `u16`, `u32`). A `float` is a value of a type with the operations of `Float`; where a proof needs
-- laws of it, they are the laws `IsOrdered`, which hold with NaN and infinities too, and `IsScale`,
-- of three literals. What hardware,
-- network, flash and libraries answer is a parameter: the record `Hardware` of the switches, the
-- answers of the expander's bus, the record `Answers` and the hash of the update client, the bytes
-- of a number in memory (`Layout`), and what the store does with a write.
--
-- What is not modelled: writes of the rows of switches that fail (src/settings_manager.cpp ignores
-- what `putBytes` returns; the laws of Settings have each write land), the effects of the commands
-- behind the PIN on the other parts (each is a number in the model), output to the serial console and logs within a part, the locks (each
-- operation is one step, as the critical sections make it), drawing, network and Bluetooth stacks,
-- generated code, and the parts of the firmware that have no module here (the energy counter,
-- telemetry, the display driver). A negative channel number of a condition is the absence of a
-- channel. The server and the web interface are other programs.
pub mod Base
pub mod Floats
pub mod Sensors
pub mod Expander
pub mod Settings
pub mod Switches
pub mod Ota
pub mod Reports
pub mod Events
pub mod Profiles
pub mod Battery
pub mod Meter
pub mod Logger
pub mod Connectivity
pub mod Provisioning
pub mod Coulomb
pub mod Cycles
pub mod Ui
pub mod Identity
