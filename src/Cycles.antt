-- ===== src/Cycles.antt =====
-- src/cycle_counter.cpp and include/cycle_counter.h: the cycles, the charge and the health of the
-- batteries. What `settings_load_battery` answers for each channel, and whether the store takes a
-- write, are parameters.
mod State
mod Legs
mod Counter
mod Range
mod Tick
mod Health
mod Tests
