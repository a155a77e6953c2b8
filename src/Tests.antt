-- ===== src/Tests.antt =====
-- Concrete instances of the parameters, and the runs that need them.
mod Toy
mod Access
mod Store
mod Start
mod Chain
mod Relay
mod Serve
mod Lend
mod Issue
mod Table
mod Revoke
mod Share
mod Connect
mod Escape
mod Typed
mod Chat
mod Bucket
mod Creation
