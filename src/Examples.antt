-- ===== src/Examples.antt =====
-- The theorems at concrete inputs, and runs of the model of hasher.go, encoder.go and decoder.go.
mod Roots
mod Codec
mod Lists
mod Slots
mod Numbers
mod Entry
mod Objects
mod Workers
mod Wide
mod Generator
