-- ===== src/App.antt =====
-- app/HttpUploader.hpp, app/FileUploadContext.hpp and app/FileDownloadContext.hpp: the request
-- handlers of the server.
pub mod Text
pub mod Json
pub mod Platform
pub mod Decode
pub mod Effects
pub mod Storage
pub mod Sessions
pub mod Upload
pub mod Transfer
pub mod Names
pub mod Access
pub mod Files
pub mod Pages
pub mod Shares
pub mod Pattern
pub mod Routes
pub mod Tests
