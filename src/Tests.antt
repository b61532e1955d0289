-- ===== src/Tests.antt =====
-- Runs of the program's parts on small inputs, one file for each part.
mod Machines
mod Runs
mod Logins
mod Web
mod Uploads
mod Relay
mod Console
mod Browsers
mod Doors
mod Coding
mod Agents
mod Reports
mod Journeys
mod Keys
mod Starts
