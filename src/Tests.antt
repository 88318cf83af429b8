-- ===== src/Tests.antt =====
-- Runs of the model and instances of its theorems, over a small concrete platform.
mod Memory
mod MemoryLaws
mod Store
mod StoreLaws
mod Sample
mod Util
mod Mutex
mod Session
mod Server
mod Program
mod Pages
mod Routes
mod Certificates
mod Browser
mod Model
mod Auth
mod Migration
mod Register
mod Keys
