-- ===== src/Tests.antt =====
-- Runs of the model on small inputs, one module for each part of the program.
mod Deciding
mod Limits
mod Iterating
mod Finishing
mod Deleting
mod Deprovisioning
mod Triggering
mod Tasks
mod Provisioning
mod Updating
mod Naming
mod Purging
mod Managing
mod Directing
mod Unbinding
mod Configuring
